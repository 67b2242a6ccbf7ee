-- ===== src/Mesa/Terms/Rules.antt =====
-- The terms that a Mesa may have (mesa-category-rules.ts), category by category.
use boteco12_api.Prelude.{
  ◌≡◌, ◌↔◌, ◌⊎◌, sym, ap, ◌∙◌, Bool, true, not, Option, none, some, if◌then◌else◌, arith,
}
use boteco12_api.Prelude.Int.{pos}
use boteco12_api.Wallet.{JsNumber, integer}
use boteco12_api.Errors.{ok, err, failure, invalid_category}
use boteco12_api.Mesa.Terms.{
  Category, paid, free, sponsored_free, unknown_category, CloseMode, capacity, date, MesaTerms,
  ValidTerms, is_positive, is_nonneg, is_zero, is_positive_option, or_else, category_of,
  access_cost_of, is_known, check_category, check_capacity, first_failure, validate_terms,
}

-- The number of participants that goes with a way to close the registrations.
abbrev CapacityFits : CloseMode → Option JsNumber → Type 0
CapacityFits capacity max = is_positive_option max ≡ true
CapacityFits date max = (max ≡ none) ⊎ (is_positive_option max ≡ true)

-- A paid Mesa closes by capacity, costs something and has no sponsored pool; a sponsored one has a
-- sponsor with a name and a pool; a free one has no money, no limit of participants, and closes by
-- date.
abbrev IsAllowed : Category → CloseMode → JsNumber → JsNumber → Bool → Option JsNumber → Type 0
IsAllowed paid mode access pool name max =
    (mode ≡ capacity)
    × (is_positive_option max ≡ true)
    × (is_positive access ≡ true)
    × (is_zero pool ≡ true)
IsAllowed sponsored_free mode access pool name max =
    CapacityFits mode max × (name ≡ true) × (is_nonneg access ≡ true) × (is_positive pool ≡ true)
IsAllowed free mode access pool name max =
    (mode ≡ date) × (max ≡ none) × (is_zero access ≡ true) × (is_zero pool ≡ true)
IsAllowed unknown_category mode access pool name max = ⊥

-- The terms with their defaults.
abbrev pub resolved : MesaTerms → ValidTerms
resolved v = record {
  category = category_of v;
  access_cost = access_cost_of v;
  sponsor_prize_pool = or_else v.sponsor_prize_pool (integer (pos 0));
  max_participants = v.max_participants;
  registration_close_mode = or_else v.registration_close_mode capacity;
}

abbrev AreAllowed : ValidTerms → Bool → Type 0
AreAllowed t name =
    IsAllowed t.category t.registration_close_mode t.access_cost t.sponsor_prize_pool name
      t.max_participants

module _ (access pool : JsNumber) (name : Bool) where
  checked-IsAllowed :
      (c : Category) (mode : CloseMode) (max : Option JsNumber) (t t' : ValidTerms)
      → first_failure (check_capacity mode max) (check_category c mode access pool name max) t
        ≡ ok t'
      → (t' ≡ t) × IsAllowed c mode access pool name max
  checked-IsAllowed paid capacity max t t' e = ground arith
  checked-IsAllowed paid date max t t' e = ground arith
  checked-IsAllowed sponsored_free capacity max t t' e = ground arith
  checked-IsAllowed sponsored_free date none t t' e = ground arith
  checked-IsAllowed sponsored_free date (some n) t t' e = ground arith
  checked-IsAllowed free capacity max t t' e = ground arith
  checked-IsAllowed free date max t t' e = ground arith
  checked-IsAllowed unknown_category mode max t t' e = ground arith

  IsAllowed-checked :
      (c : Category) (mode : CloseMode) (max : Option JsNumber) (t : ValidTerms)
      → IsAllowed c mode access pool name max
      → first_failure (check_capacity mode max) (check_category c mode access pool name max) t
        ≡ ok t
  IsAllowed-checked paid mode max t h = ground arith
  IsAllowed-checked sponsored_free capacity max t h = ground arith
  IsAllowed-checked sponsored_free date max t h = ground arith
  IsAllowed-checked free mode max t h = ground arith
  IsAllowed-checked unknown_category mode max t h = absurd h

  known_checked :
      (c : Category) (mode : CloseMode) (max : Option JsNumber) (t t' : ValidTerms)
      → (if not (is_known c)
          then err (failure invalid_category)
          else first_failure
              (check_capacity mode max)
              (check_category c mode access pool name max)
              t)
        ≡ ok t'
      → first_failure (check_capacity mode max) (check_category c mode access pool name max) t
        ≡ ok t'
  known_checked c mode max t t' e = ground arith

  checked_known :
      (c : Category) (mode : CloseMode) (max : Option JsNumber) (t t' : ValidTerms)
      → t' ≡ t
      → IsAllowed c mode access pool name max
      → first_failure (check_capacity mode max) (check_category c mode access pool name max) t
        ≡ ok t
      → (if not (is_known c)
          then err (failure invalid_category)
          else first_failure
              (check_capacity mode max)
              (check_category c mode access pool name max)
              t)
        ≡ ok t'
  checked_known unknown_category mode max t t' s h e = absurd h
  checked_known c mode max t t' s h e = e ∙ ap ok (sym s)

-- Terms are accepted exactly when, with their defaults, they are allowed for their category, and
-- what is returned are these terms.
pub validate_terms_iff :
    (v : MesaTerms) (t : ValidTerms)
    → (validate_terms v ≡ ok t) ↔ ((t ≡ resolved v) × AreAllowed (resolved v) v.has_sponsor_name)
unfolding validate_terms
validate_terms_iff v t =
    let access = access_cost_of v in
    let pool = or_else v.sponsor_prize_pool (integer (pos 0)) in
    let name = v.has_sponsor_name in
    let c = category_of v in
    let mode = or_else v.registration_close_mode capacity in
    let max = v.max_participants in
    (
      (λ e.
          checked-IsAllowed access pool name c mode max (resolved v) t
            (known_checked access pool name c mode max (resolved v) t e)),
      (λ h.
          checked_known access pool name c mode max (resolved v) t h.0 h.1
            (IsAllowed-checked access pool name c mode max (resolved v) h.1)),
    )
