-- ===== src/Prediction/Laws.antt =====
-- The normal form of a prediction (normalize-ticket-prediction.ts), and which texts are valid.
use boteco12_api.Prelude.{
  ◌≡◌, ◌≢◌, ◌↔◌, sym, refl, ap, ◌∙◌, true, List, [], ◌∷◌, map, length, all, arith, Bool-cases,
  length-map, inl, inr,
}
use boteco12_api.Prelude.Text.{Text, text_eq, text_eq-eq, trim, split, join, comma}
use boteco12_api.Prelude.Text.Laws.{
  AllLack, split-Lacks, split-join, join-split, split-ne-nil, trim_idem, trim-to_upper,
  to_upper_idem, Lacks-trim, Lacks-to_upper,
}
use boteco12_api.Prediction.{
  clean, normalize_ticket_prediction, home_win, draw_text, away_win, is_valid_choice,
  is_valid_ticket_prediction,
}

clean_idem : (t : Text) → clean (clean t) ≡ clean t
unfolding clean
clean_idem t = rw (trim-to_upper (trim t), trim_idem t) (to_upper_idem (trim t))

pub map-clean_idem : (ts : List Text) → map clean (map clean ts) ≡ map clean ts
map-clean_idem [] = refl
map-clean_idem (t ∷ ts) = cc (clean_idem t, map-clean_idem ts)

AllLack-clean : (ts : List Text) → AllLack comma ts → AllLack comma (map clean ts)
unfolding clean
AllLack-clean [] h = tt
AllLack-clean (t ∷ ts) h = (Lacks-to_upper (trim t) (Lacks-trim comma t h.0), AllLack-clean ts h.1)

pub split-join-clean :
    (ts : List Text)
    → ts ≢ []
    → AllLack comma ts
    → split comma (join comma (map clean ts)) ≡ map clean ts
split-join-clean [] n h = absurd (n refl)
split-join-clean (t ∷ ts) n h = split-join comma (clean t) (map clean ts) (AllLack-clean (t ∷ ts) h)

-- The tokens of a normalized prediction are the cleaned tokens of the prediction, one for one.
pub split-normalize_ticket_prediction :
    (v : Text) → split comma (normalize_ticket_prediction v) ≡ map clean (split comma v)
unfolding normalize_ticket_prediction
split-normalize_ticket_prediction v =
    split-join-clean (split comma v) (split-ne-nil comma v) (split-Lacks comma v)

-- Normalizing a prediction a second time changes nothing: the score reads a stored prediction as it
-- was accepted.
pub normalize_ticket_prediction_idem :
    (v : Text)
    → normalize_ticket_prediction (normalize_ticket_prediction v) ≡ normalize_ticket_prediction v
normalize_ticket_prediction_idem v =
    joined (normalize_ticket_prediction v)
    ∙ ap (join comma)
        (ap (map clean) (split-normalize_ticket_prediction v) ∙ map-clean_idem (split comma v))
    ∙ sym (joined v)
  where
    joined : (w : Text) → normalize_ticket_prediction w ≡ join comma (map clean (split comma w))
    joined w = unfold normalize_ticket_prediction in refl

-- The outcome that a choice stands for.
pub data Choice : Type 0 where
  home draw away : Choice

abbrev choice_text : Choice → Text
choice_text home = home_win
choice_text draw = draw_text
choice_text away = away_win

-- Twelve choices, written with commas between them.
abbrev pub render : List Choice → Text
render cs = join comma (map choice_text cs)

AllLack-choices : (cs : List Choice) → AllLack comma (map choice_text cs)
AllLack-choices [] = tt
AllLack-choices (home ∷ cs) = ((refl, tt), AllLack-choices cs)
AllLack-choices (draw ∷ cs) = ((refl, tt), AllLack-choices cs)
AllLack-choices (away ∷ cs) = ((refl, tt), AllLack-choices cs)

all-choices : (cs : List Choice) → all is_valid_choice (map choice_text cs) ≡ true
all-choices [] = refl
all-choices (home ∷ cs) = all-choices cs
all-choices (draw ∷ cs) = all-choices cs
all-choices (away ∷ cs) = all-choices cs

choice_of : (t : Text) → is_valid_choice t ≡ true → (c : Choice) × (t ≡ choice_text c)
choice_of t h = elim (Bool-cases (text_eq t home_win)) [
  | inl e ↦ (home, text_eq-eq t home_win e)
  | inr e ↦ elim (Bool-cases (text_eq t draw_text)) [
    | inl f ↦ (draw, text_eq-eq t draw_text f)
    | inr f ↦ (away, text_eq-eq t away_win (rw (e, f) at h))
  ]
]

choices_of :
    (ts : List Text)
    → all is_valid_choice ts ≡ true
    → (cs : List Choice) × (ts ≡ map choice_text cs)
choices_of [] h = ([], refl)
choices_of (t ∷ ts) h =
    let (c, e) = choice_of t (ground arith) in
    let (cs, f) = choices_of ts (ground arith) in (c ∷ cs, cc)

split-render : (cs : List Choice) → length cs ≡ 12 → split comma (render cs) ≡ map choice_text cs
split-render [] h = absurd (omega arith)
split-render (c ∷ cs) h =
    split-join comma (choice_text c) (map choice_text cs) (AllLack-choices (c ∷ cs))

-- A text is a valid prediction exactly when it is the writing of twelve choices.
pub is_valid_ticket_prediction_iff :
    (v : Text)
    → (is_valid_ticket_prediction v ≡ true)
      ↔ ((cs : List Choice) × (length cs ≡ 12) × (v ≡ render cs))
unfolding is_valid_ticket_prediction
is_valid_ticket_prediction_iff v = (to, from)
  where
    to :
        is_valid_ticket_prediction v ≡ true
        → (cs : List Choice) × (length cs ≡ 12) × (v ≡ render cs)
    to h =
        let (cs, e) = choices_of (split comma v) (ground arith) in
        let n : length (split comma v) ≡ 12 = ground arith in
        (
          cs,
          sym (length-map cs choice_text) ∙ ap length (sym e) ∙ n,
          sym (join-split comma v) ∙ ap (join comma) e,
        )

    from :
        (cs : List Choice) × (length cs ≡ 12) × (v ≡ render cs)
        → is_valid_ticket_prediction v ≡ true
    from (cs, n, e) = rw (e, split-render cs n, all-choices cs, length-map cs choice_text, n)
