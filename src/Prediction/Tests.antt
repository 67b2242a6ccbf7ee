-- ===== src/Prediction/Tests.antt =====
-- Predictions at concrete inputs.
use Prim.Native.Char.{code}
use Prim.Native.String.{String}
use boteco12_api.Prelude.{ℕ, ◌≡◌, refl, true, false, List, [], ◌∷◌, length}
use boteco12_api.Prelude.Text.{Text, split, join, upper, is_space, trim}
use boteco12_api.Prediction.{normalize_ticket_prediction, is_valid_ticket_prediction}
use boteco12_api.Prediction.Laws.{is_valid_ticket_prediction_iff, Choice, render}

abbrev codes : String → List ℕ
codes String.[] = []
codes (String.◌∷◌ c s) = code c ∷ codes s

abbrev typed : Text
typed = codes " x,1 ,2,x,1,2,X,1,2,X,1,2 "

normalize_typed : normalize_ticket_prediction typed ≡ codes "X,1,2,X,1,2,X,1,2,X,1,2"
unfolding normalize_ticket_prediction split join upper is_space trim
normalize_typed = refl

validity :
    (is_valid_ticket_prediction (codes "X,1,2,X,1,2,X,1,2,X,1,2") ≡ true)
    × (is_valid_ticket_prediction typed ≡ false)
    × (is_valid_ticket_prediction (codes "X,1,2") ≡ false)
unfolding is_valid_ticket_prediction split
validity = (refl, refl, refl)

is_valid_ticket_prediction_example :
    (cs : List Choice) × (length cs ≡ 12) × (codes "X,1,2,X,1,2,X,1,2,X,1,2" ≡ render cs)
unfolding is_valid_ticket_prediction split
is_valid_ticket_prediction_example =
    (is_valid_ticket_prediction_iff (codes "X,1,2,X,1,2,X,1,2,X,1,2")).0 refl
