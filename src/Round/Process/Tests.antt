-- ===== src/Round/Process/Tests.antt =====
-- A round that does not exist is processed: the job fails, and the round is not locked.
use boteco12_api.Prelude.{◌≡◌, refl, false, none, [], ◌∷◌}
use boteco12_api.Errors.{err, failure, round_not_found}
use boteco12_api.Db.{empty_db}
use boteco12_api.Score.RoundScore.{score_round, score_found}
use boteco12_api.Round.Process.{
  Plant, running, success, failed, has_running, process_round, process_round_unlocks,
}

abbrev plant : Plant
plant = record {
  db = empty_db;
  jobs =
      record { id = 1; reference = 4; status = success }
      ∷ record { id = 2; reference = 5; status = running }
      ∷ [];
}

job_fails : process_round (λ s. s) 3 none 4 plant ≡ (
  err (failure round_not_found),
  record plant { jobs = record { id = 3; reference = 4; status = failed } ∷ plant.jobs },
)
unfolding process_round score_round score_found
job_fails = refl

process_round_unlocks_example : has_running 4 (process_round (λ s. s) 3 none 4 plant).1.jobs ≡ false
process_round_unlocks_example = process_round_unlocks 3 none 4 plant refl
