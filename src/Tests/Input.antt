-- ===== src/Tests/Input.antt =====
-- The theorems of text fields and selection lists at concrete inputs.
use fluxcope.Common.{
  ℕ, ◌≡◌, ◌≢◌, refl, sym, ap, ◌∙◌, true, none, some, List, [], ◌∷◌, ◌++◌, arith, length,
}
use fluxcope.Common.Text.{Text, text}
use fluxcope.Common.Text.Utf8.{byte_len, len_utf8}
use fluxcope.Input.TextInput
use fluxcope.Input.TextInput.{
  Segmentation, TextInputState, InputEditOutcome, joined, paste, char, no_modifiers, KeyEvent,
  backspace, enter,
}
use fluxcope.Input.TextInput.Boundary.{IsValid}
use fluxcope.Input.TextInput.Editing.{Pasted, paste-Pasted}
use fluxcope.Input.TextInput.Keys.{Returns, handle_key-Returns}
use fluxcope.Input.Select
use fluxcope.Input.Select.{
  SelectState, SelectItem, open_with_selected, scroll_up, scroll_down, value, normal,
}
use fluxcope.Input.Select.Focus.{InView, open_with_selected-InView, scrolls-InView, count_of, Keeps}
use fluxcope.Input.Select.Keys.{Handles, handle_key-Handles}

-- each character is a grapheme
abbrev singles : Text → List Text
singles [] = []
singles (c ∷ s) = (c ∷ []) ∷ singles s

joined-singles : (t : Text) → joined (singles t) ≡ t
unfolding joined
joined-singles [] = refl
joined-singles (c ∷ t) = ap (λ s. c ∷ s) (joined-singles t)

singles_cut :
    (t : Text) (xs ys : List Text)
    → singles t ≡ xs ++ ys
    → (singles (joined xs) ≡ xs) × (singles (joined ys) ≡ ys)
unfolding joined
singles_cut t [] ys e =
    (refl, ap (λ l. singles (joined l)) (sym e) ∙ ap singles (joined-singles t) ∙ e)
singles_cut [] (x ∷ xs) ys e = cc
singles_cut (c ∷ t) (x ∷ xs) ys e =
    let h : x ≡ c ∷ [] = cc (e) in
    let r : singles t ≡ xs ++ ys = cc (e) in
    let (a, b) = singles_cut t xs ys r in (rw h (ap (λ l. (c ∷ []) ∷ l) a), b)

singles_non_empty : (t : Text) (xs ys : List Text) → singles t ≢ xs ++ [] ∷ ys
singles_non_empty [] [] ys e = cc (e)
singles_non_empty [] (x ∷ xs) ys e = cc (e)
singles_non_empty (c ∷ t) [] ys e = cc (e)
singles_non_empty (c ∷ t) (x ∷ xs) ys e =
    let r : singles t ≡ xs ++ [] ∷ ys = cc (e) in singles_non_empty t xs ys r

abbrev by_character : Segmentation
by_character = record {
  graphemes = singles;
  graphemes_joined = joined-singles;
  graphemes_cut = singles_cut;
  non_empty = singles_non_empty;
}

-- `ab|` of at most three bytes
abbrev field : TextInputState
field = record { text = 0x61 ∷ 0x62 ∷ []; cursor = 1; max_bytes = some 3 }

field-IsValid : IsValid by_character field
field-IsValid = record {
  cut = record {
    before = (0x61 ∷ []) ∷ [];
    after = (0x62 ∷ []) ∷ [];
    pieces = refl;
    place_is = unfold joined in unfold byte_len in unfold len_utf8 in refl;
  };
  within = unfold byte_len in unfold len_utf8 in omega arith;
}

paste-Pasted_example :
    (s' : TextInputState) × (outcome : InputEditOutcome) × (paste by_character field
        (0x63 ∷ 0x0a ∷ [])
      ≡ some (s', outcome))
    × Pasted by_character field field-IsValid (0x63 ∷ 0x0a ∷ []) s' outcome
paste-Pasted_example =
    paste-Pasted by_character field field-IsValid (0x63 ∷ 0x0a ∷ [])
      (unfold byte_len in unfold len_utf8 in omega arith)

handle_key-Returns_example : Returns by_character field field-IsValid (
    TextInput.handle_key by_character field (record { code = backspace; modifiers = no_modifiers }))
handle_key-Returns_example =
    handle_key-Returns by_character field field-IsValid
      (record { code = backspace; modifiers = no_modifiers })

abbrev items : List (SelectItem ℕ)
items =
    record { id = 1; label = text "one"; role = value; filter_mode = normal }
    ∷ record { id = 2; label = text "two"; role = value; filter_mode = normal }
    ∷ []

abbrev same_text : Text → Text
same_text t = t

open_with_selected-InView_example :
    InView (length items) 5 (open_with_selected same_text Select.new items none 5)
    × ((open_with_selected same_text Select.new items none 5).is_open ≡ true)
open_with_selected-InView_example =
    open_with_selected-InView same_text items 5 Select.new none (omega arith)

abbrev opened : SelectState
opened = record Select.new { is_open = true }

opened-IsValid : IsValid by_character opened.filter
opened-IsValid = record {
  cut = record {
    before = [];
    after = [];
    pieces = refl;
    place_is = unfold joined in unfold byte_len in refl;
  };
  within = tt;
}

opened-InView : InView (count_of same_text items opened) 5 opened
opened-InView = record {
  on_item = omega arith;
  window_on_item = omega arith;
  below_top = omega arith;
  above_bottom = omega arith;
}

handle_key-Handles_example : Handles same_text by_character items 5 opened (
    Select.handle_key same_text by_character opened
      (record { code = enter; modifiers = no_modifiers })
      items
      5)
unfolding Select.resolve Select.indices_from
handle_key-Handles_example =
    handle_key-Handles same_text by_character items 5 opened refl opened-InView opened-IsValid
      (omega arith) (record { code = enter; modifiers = no_modifiers })

scrolls-InView_example :
    (InView (count_of same_text items opened) 5 (scroll_up same_text opened items 5)
      × Keeps opened (scroll_up same_text opened items 5))
    × (InView (count_of same_text items opened) 5 (scroll_down same_text opened items 5)
        × Keeps opened (scroll_down same_text opened items 5))
unfolding Select.resolve Select.indices_from
scrolls-InView_example =
    scrolls-InView same_text items 5 opened (omega arith) opened-InView (omega arith)
