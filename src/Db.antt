-- ===== src/Db.antt =====
-- The tables of prisma/schema.prisma that the modelled services read and write. A row is named by
-- its unique key (a wallet by its user, a round benefit by user and round); the generated uuids,
-- the time stamps and the texts for people are not modelled. Identifiers are only compared, so they
-- are numbers; a date is its number of milliseconds.
use boteco12_api.Prelude.{
  ℕ, Bool, true, false, ◌&&◌, Option, none, some, List, [], ◌∷◌, ◌==◌, if◌then◌else◌,
}
use boteco12_api.Prelude.Int.{ℤ, pos, ltb_ℤ}
use boteco12_api.Errors.{ok, err, database, check_violation, unique_violation}
use boteco12_api.Transaction.{Tx}

-- A text, by its UTF-16 code units.
abbrev pub Text : Type 0
Text = List ℕ

pub data BetType : Type 0 where
  none_type double super_double : BetType

abbrev pub bet_eq : BetType → BetType → Bool
bet_eq none_type none_type = true
bet_eq double double = true
bet_eq super_double super_double = true
bet_eq _ _ = false

pub data RoundStatus : Type 0 where
  draft pending open_status closed scored cancelled : RoundStatus

pub data TicketStatus : Type 0 where
  pending won lost : TicketStatus

pub data EntryType : Type 0 where
  credit debit : EntryType

-- The texts `bolao:entry:…` and `bolao:payout:…`, by their parts.
pub data IdempotencyKey : Type 0 where
  bolao_entry bolao_payout : ℕ → ℕ → IdempotencyKey

pub record LedgerEntry : Type 0 where
  pub user : ℕ
  pub type : EntryType
  pub amount : ℤ
  pub key : Option IdempotencyKey

pub record RoundBenefit : Type 0 where
  pub free_doubles : ℕ
  pub free_super_doubles : ℕ

pub record Round : Type 0 where
  pub number : ℕ
  pub status : RoundStatus
  pub open_at : Option ℕ
  pub close_at : Option ℕ
  pub result : Option Text

pub record Ticket : Type 0 where
  pub user : ℕ
  pub round : ℕ
  pub prediction : Text
  pub multipliers : List ℕ
  pub status : TicketStatus
  pub score_round : ℤ

pub record ScoreHistory : Type 0 where
  pub user : ℕ
  pub round : ℕ
  pub score_round : ℤ
  pub score_total : ℤ
  pub total_doubles : ℕ
  pub total_super_doubles : ℕ

-- The audit log, by action; the metadata are the numbers that the code computes.
pub data AuditEntry : Type 0 where
  benefit_package_purchased : ℕ → BetType → ℕ → ℤ → AuditEntry
  paid_benefit_granted : ℕ → BetType → ℕ → ℕ → AuditEntry
  ticket_submitted : ℕ → ℕ → ℕ → ℕ → AuditEntry

pub record Db : Type 0 where
  pub wallets : ℕ → Option ℤ
  pub ledger : List LedgerEntry
  pub round_benefits : ℕ → ℕ → Option RoundBenefit
  pub inventory : ℕ → BetType → Option ℕ
  pub rounds : ℕ → Option Round
  pub tickets : List Ticket
  pub user_scores : ℕ → ℤ
  pub histories : List ScoreHistory
  pub audit : List AuditEntry

abbrev pub empty_db : Db
empty_db = record {
  wallets = λ _. none;
  ledger = [];
  round_benefits = λ _ _. none;
  inventory = λ _ _. none;
  rounds = λ _. none;
  tickets = [];
  user_scores = λ _. pos 0;
  histories = [];
  audit = [];
}

abbrev pub put {ℓ} : {A : Type ℓ} → ℕ → A → (ℕ → A) → ℕ → A
put k v m j = if j == k then v else m j

abbrev pub put_pair {ℓ} : {A : Type ℓ} → ℕ → ℕ → A → (ℕ → ℕ → A) → ℕ → ℕ → A
put_pair k l v m j i = if j == k && i == l then v else m j i

abbrev pub put_bet {ℓ} : {A : Type ℓ} → ℕ → BetType → A → (ℕ → BetType → A) → ℕ → BetType → A
put_bet k t v m j s = if j == k && bet_eq s t then v else m j s

abbrev key_eq : IdempotencyKey → IdempotencyKey → Bool
key_eq (bolao_entry a b) (bolao_entry c d) = a == c && b == d
key_eq (bolao_payout a b) (bolao_payout c d) = a == c && b == d
key_eq _ _ = false

abbrev pub same_key : Option IdempotencyKey → Option IdempotencyKey → Bool
same_key (some k) (some j) = key_eq k j
same_key _ _ = false

-- Whether an entry of the ledger has this key; rows without a key never clash.
abbrev pub key_taken : Option IdempotencyKey → List LedgerEntry → Bool
key_taken k [] = false
key_taken k (e ∷ l) = if same_key k e.key then true else key_taken k l

-- `walletLedger.create`, under `wallet_ledger_amount_positive` and the unique `idempotencyKey`;
-- the newest entry stands first.
abbrev pub create_entry : LedgerEntry → Tx Db (Unit {0})
create_entry e db =
    if ltb_ℤ (pos 0) e.amount
    then if key_taken e.key db.ledger
      then err (database unique_violation)
      else ok (tt, record db { ledger = e ∷ db.ledger })
    else err (database check_violation)

-- `wallet.update`, under `wallets_balance_non_negative`.
abbrev pub set_balance : ℕ → ℤ → Tx Db (Unit {0})
set_balance u b db =
    if ltb_ℤ b (pos 0)
    then err (database check_violation)
    else ok (tt, record db { wallets = put u (some b) db.wallets })

abbrev pub log_audit : AuditEntry → Tx Db (Unit {0})
log_audit a db = ok (tt, record db { audit = a ∷ db.audit })
