-- ===== src/Mesa/Entry/History.antt =====
-- The books of a Mesa over joins, invites and reviews, in any order (join-bolao,
-- use-bolao-invite and review-bolao-request.service.ts).
use boteco12_api.Prelude.{ℕ, ◌≡◌, refl, Bool}
use boteco12_api.Errors.{Result, ok, err}
use boteco12_api.Transaction.{committed}
use boteco12_api.Db.{Db}
use boteco12_api.Mesa.Entry.{Lobby}
use boteco12_api.Mesa.Entry.Join.{join_bolao}
use boteco12_api.Mesa.Entry.Review.{review_mesa, review_bolao_request}
use boteco12_api.Mesa.Entry.Invited.{with_invite, use_bolao_invite}
use boteco12_api.Mesa.Entry.Laws.{HasBooks, join_bolao-HasBooks}
use boteco12_api.Mesa.Entry.Books.{review_mesa-HasBooks, with_invite-HasBooks}

-- One run of a service on the Mesa, committed or not
pub data Step : Lobby → Lobby → Type 0 where
  joins :
      (s : Lobby) (others_db : Db → Db) (creator : Bool) (ranking now : ℕ) (pro : Result (Unit {0}))
      (u : ℕ)
      → Step s (committed s (join_bolao (λ s. s) others_db creator ranking now pro u s))
  reviews :
      (s : Lobby) (others_db : Db → Db) (approves : Bool) (ranking reviewer now u : ℕ)
      → Step s
          (committed s (review_bolao_request (λ s. s) others_db approves ranking reviewer now u s))
  uses_invite :
      (s : Lobby) (others_db : Db → Db) (ranking now : ℕ) (pro : Result (Unit {0})) (u : ℕ)
      → Step s (committed s (use_bolao_invite (λ s. s) others_db ranking now pro u s))

pub data Reach (s : Lobby) : Lobby → Type 0 where
  here : Reach s s
  next : {t v : Lobby} → Reach s t → Step t v → Reach s v

committed-HasBooks :
    (s : Lobby) (r : Result (Unit {0} × Lobby))
    → HasBooks s.mesa s.participants
    → ((t : Lobby) → r ≡ ok (tt, t) → HasBooks t.mesa t.participants)
    → HasBooks (committed s r).mesa (committed s r).participants
committed-HasBooks s (ok (_, t)) h keeps = keeps t refl
committed-HasBooks s (err e) h keeps = h

Step-HasBooks :
    {s t : Lobby} → Step s t → HasBooks s.mesa s.participants → HasBooks t.mesa t.participants
unfolding review_bolao_request use_bolao_invite
Step-HasBooks (joins s others_db creator ranking now pro u) h =
    committed-HasBooks s (join_bolao (λ s. s) others_db creator ranking now pro u s) h
      (λ t e. join_bolao-HasBooks others_db creator ranking now pro u s t h e)
Step-HasBooks (reviews s others_db approves ranking reviewer now u) h =
    committed-HasBooks s (review_mesa (λ s. s) others_db approves ranking reviewer now u s.mesa s) h
      (λ t e. review_mesa-HasBooks others_db ranking now approves reviewer u s.mesa s t refl h e)
Step-HasBooks (uses_invite s others_db ranking now pro u) h =
    committed-HasBooks s (with_invite (λ s. s) others_db ranking now pro u s.invite s) h
      (λ t e. with_invite-HasBooks others_db ranking now pro u s.invite s t h e)

-- Over any sequence of joins, reviews and used invites, one after the other, failed ones included,
-- the books of a Mesa stay right: its seats are its approved participants, the money collected is
-- what they paid, a Mesa that closes by capacity is within its limit, and the fee and the pool are
-- what was collected and the sponsor's part.
pub mesa_books_stay_right :
    {s t : Lobby} → HasBooks s.mesa s.participants → Reach s t → HasBooks t.mesa t.participants
mesa_books_stay_right h here = h
mesa_books_stay_right h (next r step) = Step-HasBooks step (mesa_books_stay_right h r)
