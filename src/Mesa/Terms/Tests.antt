-- ===== src/Mesa/Terms/Tests.antt =====
-- The rules of the Mesas' terms, on concrete terms.
use boteco12_api.Prelude.{◌≡◌, refl, true, false, some, none}
use boteco12_api.Prelude.Int.{pos}
use boteco12_api.Wallet.{integer}
use boteco12_api.Errors.{ok, err, failure, paid_with_sponsor_pool, mesa_full}
use boteco12_api.Mesa.Terms.{
  MesaTerms, free, date, category_of, access_cost_of, validate_terms, assert_capacity, is_paid,
  is_free, is_sponsored, has_capacity,
}
use boteco12_api.Mesa.Terms.Rules.{resolved, validate_terms_iff}

abbrev free_terms : MesaTerms
free_terms = record {
  category = some free;
  access_cost = none;
  entry_fee = none;
  sponsor_prize_pool = none;
  has_sponsor_name = false;
  max_participants = none;
  registration_close_mode = some date;
}

abbrev paid_terms : MesaTerms
paid_terms = record {
  category = none;
  access_cost = none;
  entry_fee = some (integer (pos 5));
  sponsor_prize_pool = some (integer (pos 3));
  has_sponsor_name = false;
  max_participants = some (integer (pos 10));
  registration_close_mode = none;
}

validate_terms_example : validate_terms free_terms ≡ ok (resolved free_terms)
unfolding category_of access_cost_of
validate_terms_example =
    (validate_terms_iff free_terms (resolved free_terms)).1 (refl, (refl, refl, refl, refl))

paid_has_no_pool : validate_terms paid_terms ≡ err (failure paid_with_sponsor_pool)
unfolding validate_terms
paid_has_no_pool = refl

-- A Mesa without a category is a paid one.
paid_by_default :
    (is_paid paid_terms ≡ true) × (is_free paid_terms ≡ false) × (is_sponsored paid_terms ≡ false)
unfolding is_paid is_free is_sponsored
paid_by_default = (refl, refl, refl)

ten_is_full :
    (has_capacity paid_terms ≡ true)
    × (assert_capacity paid_terms (pos 10) ≡ err (failure mesa_full))
    × (assert_capacity paid_terms (pos 9) ≡ ok tt)
unfolding has_capacity assert_capacity
ten_is_full = (refl, refl, refl)
