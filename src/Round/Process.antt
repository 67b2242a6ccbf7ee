-- ===== src/Round/Process.antt =====
-- src/services/round/process-round.service.ts: a round is scored under a record of the job, so that no
-- two runs are at work. The steps are not one transaction. What follows the scoring of the tickets
-- (rankings and snapshots) only tells whether it throws.
mod Tests
use boteco12_api.Prelude.{
  ℕ, ◌≡◌, refl, Bool, true, false, not, ◌&&◌, Option, none, some, List, [], ◌∷◌, ◌==◌,
  if◌then◌else◌, arith, Bool-cases, inl, inr,
}
use boteco12_api.Errors.{Error, Result, ok, err, failure, round_being_processed}
use boteco12_api.Db.{Db}
use boteco12_api.Score.RoundScore.{score_round}

pub data JobStatus : Type 0 where
  running success failed : JobStatus

-- A row of `InternalJobExecution` of the job PROCESS_ROUND
pub record Job : Type 0 where
  pub id : ℕ
  pub reference : ℕ
  pub status : JobStatus

pub record Plant : Type 0 where
  pub db : Db
  pub jobs : List Job

abbrev pub is_running_status : JobStatus → Bool
is_running_status running = true
is_running_status _ = false

-- `findFirst` of a job of this round that is RUNNING
abbrev pub has_running : ℕ → List Job → Bool
has_running r [] = false
has_running r (j ∷ js) =
    if j.reference == r && is_running_status j.status then true else has_running r js

-- `internalJobExecution.update`
abbrev pub finish : ℕ → JobStatus → List Job → List Job
finish id status [] = []
finish id status (j ∷ js) =
    let rest = finish id status js in
    if j.id == id then record j { status = status } ∷ rest else j ∷ rest

abbrev pub finished : ℕ → JobStatus → Db → Plant → Plant
finished id status db s = record { db = db; jobs = finish id status s.jobs }

-- The `try`, with what `ScoreRoundService.execute` did; `later` is the error of the rankings, if any,
-- which are not reached when the round was scored before.
abbrev pub after_score : ℕ → Option Error → Result (Bool × Db) → Plant → Result (Unit {0}) × Plant
after_score id later (err e) s = (err e, finished id failed s.db s)
after_score id later (ok (false, db)) s = (ok tt, finished id success db s)
after_score id none (ok (true, db)) s = (ok tt, finished id success db s)
after_score id (some e) (ok (true, db)) s = (err e, finished id failed db s)

abbrev pub started : ℕ → ℕ → Plant → Plant
started id r s = record s { jobs = record { id = id; reference = r; status = running } ∷ s.jobs }

-- `ProcessRoundService.execute`, with the id of the new job; `others` is what other runs do between
-- the two statements on the jobs.
unfoldable pub process_round :
    (Plant → Plant) → ℕ → Option Error → ℕ → Plant → Result (Unit {0}) × Plant
process_round others id later r s =
    if has_running r s.jobs
    then (err (failure round_being_processed), s)
    else let s' = started id r (others s) in
      after_score id later (score_round (λ db. db) r s'.db) s'

abbrev pub has_ended : JobStatus → Bool
has_ended status = not (is_running_status status)

finish-has_running :
    (id r : ℕ) (status : JobStatus) (js : List Job)
    → has_ended status ≡ true
    → has_running r js ≡ false
    → has_running r (finish id status js) ≡ false
finish-has_running id r status [] o h = refl
finish-has_running id r status (j ∷ js) o h = elim (Bool-cases (j.id == id)) [
  | inl e ↦ ground (arith, finish-has_running id r status js)
  | inr e ↦ ground (arith, finish-has_running id r status js)
]

started-has_running :
    (id r : ℕ) (status : JobStatus) (db : Db) (s : Plant)
    → has_ended status ≡ true
    → has_running r s.jobs ≡ false
    → has_running r (finished id status db (started id r s)).jobs ≡ false
started-has_running id r status db s o h = ground (arith, finish-has_running id r status s.jobs o h)

after_score-has_running :
    (id : ℕ) (later : Option Error) (r : ℕ) (x : Result (Bool × Db)) (s : Plant)
    → has_running r s.jobs ≡ false
    → has_running r (after_score id later x (started id r s)).1.jobs ≡ false
after_score-has_running id later r (err e) s h = started-has_running id r failed s.db s refl h
after_score-has_running id later r (ok (false, db)) s h =
    started-has_running id r success db s refl h
after_score-has_running id none r (ok (true, db)) s h = started-has_running id r success db s refl h
after_score-has_running id (some e) r (ok (true, db)) s h =
    started-has_running id r failed db s refl h

-- A run never leaves the round locked: however the scoring and what follows it end, with an error or
-- without, no job of the round is RUNNING after it, so that the round can be processed again. Nobody
-- else is at work on the round meanwhile.
pub process_round_unlocks :
    (id : ℕ) (later : Option Error) (r : ℕ) (s : Plant)
    → has_running r s.jobs ≡ false
    → has_running r (process_round (λ s. s) id later r s).1.jobs ≡ false
unfolding process_round
process_round_unlocks id later r s h =
    rw h (after_score-has_running id later r (score_round (λ db. db) r s.db) s h)
