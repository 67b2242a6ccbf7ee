-- ===== src/Prediction.antt =====
-- src/services/ticket/normalize-ticket-prediction.ts: the text of a ticket's twelve choices.
pub mod Laws
mod Tests
use boteco12_api.Prelude.{ℕ, Bool, ◌&&◌, ◌||◌, List, [], ◌∷◌, map, length, all, ◌==◌}
use boteco12_api.Prelude.Text.{Text, text_eq, to_upper, trim, split, join, comma}

-- `token.trim().toUpperCase()`
unfoldable pub clean : Text → Text
clean token = to_upper (trim token)

unfoldable pub normalize_ticket_prediction : Text → Text
unfolding clean
normalize_ticket_prediction value = join comma (map clean (split comma value))

-- The texts "1", "X" and "2".
abbrev pub home_win : Text
home_win = b'1' ∷ []

abbrev pub draw_text : Text
draw_text = b'X' ∷ []

abbrev pub away_win : Text
away_win = b'2' ∷ []

-- `VALID_TICKET_PREDICTIONS.includes(token)`
abbrev pub is_valid_choice : Text → Bool
is_valid_choice t = text_eq t home_win || text_eq t draw_text || text_eq t away_win

unfoldable pub is_valid_ticket_prediction : Text → Bool
is_valid_ticket_prediction value =
    let tokens = split comma value in length tokens == 12 && all is_valid_choice tokens
