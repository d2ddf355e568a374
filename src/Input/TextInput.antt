-- ===== src/Input/TextInput.antt =====
-- A one-line text field, src/text_input/state.rs. The cursor is a byte offset. The graphemes of a
-- text, of the unicode-segmentation crate, are a parameter; `none` is the panic of a slice.
pub mod Boundary
pub mod Editing
pub mod Keys
use fluxcope.Common.{
  ℕ, zero, suc, ◌+◌, ◌-◌, ◌≡◌, ◌≢◌, Bool, true, false, not, ◌&&◌, ◌||◌, Option, none, some, List,
  [], ◌∷◌, ◌++◌, ltb, leb, ◌==◌, if◌then◌else◌, u64_max,
}
use fluxcope.Common.Outcome.Panic.{◌>>=◌}
use fluxcope.Common.Text.{Text}
use fluxcope.Common.Text.Utf8.{len_utf8, byte_len, split_at}

-- the texts of a list, in a row
unfoldable pub joined : List Text → Text
joined [] = []
joined (t ∷ ts) = t ++ joined ts

-- `graphemes(true)`: non-empty pieces of the text in order; a text that is cut between two of its
-- graphemes falls into the same ones.
pub record Segmentation : Type 0 where
  pub graphemes : Text → List Text
  pub graphemes_joined : (t : Text) → joined (graphemes t) ≡ t
  pub graphemes_cut :
      (t : Text) (xs ys : List Text)
      → graphemes t ≡ xs ++ ys
      → (graphemes (joined xs) ≡ xs) × (graphemes (joined ys) ≡ ys)
  pub non_empty : (t : Text) (xs ys : List Text) → graphemes t ≢ xs ++ [] ∷ ys

pub data InputEditOutcome : Type 0 where
  changed unchanged limit_reached : InputEditOutcome

pub record TextInputState : Type 0 where
  pub text : Text
  pub cursor : ℕ
  pub max_bytes : Option ℕ

abbrev pub new : Text → TextInputState
new text = record { text = text; cursor = byte_len text; max_bytes = none }

abbrev pub with_max_bytes : ℕ → TextInputState
with_max_bytes max_bytes = record { text = []; cursor = 0; max_bytes = some max_bytes }

abbrev pub clear : TextInputState → TextInputState
clear s = record s { text = []; cursor = 0 }

-- `char::is_control`
unfoldable pub is_control : ℕ → Bool
is_control c = ltb c 0x20 || (leb 0x7f c && leb c 0x9f)

unfoldable pub visible : Text → Text
visible [] = []
visible (c ∷ s) = if is_control c then visible s else c ∷ visible s

-- the starts of `grapheme_indices`, from an offset
unfoldable pub starts : ℕ → List Text → List ℕ
starts offset [] = []
starts offset (g ∷ gs) = offset ∷ starts (offset + byte_len g) gs

-- `take_while(|&start| start <= cursor).last()`, with what it is if there is none
unfoldable pub last_start : ℕ → ℕ → List ℕ → ℕ
last_start otherwise cursor [] = otherwise
last_start otherwise cursor (start ∷ later) =
    let rest = last_start start cursor later in if leb start cursor then rest else otherwise

-- `find(|&start| start >= cursor)`, with what it is if there is none
unfoldable pub next_start : ℕ → ℕ → List ℕ → ℕ
next_start otherwise cursor [] = otherwise
next_start otherwise cursor (start ∷ later) =
    let rest = next_start otherwise cursor later in if leb cursor start then start else rest

unfoldable pub last_grapheme : List Text → Option Text
last_grapheme [] = none
last_grapheme (g ∷ gs) = elim (last_grapheme gs) [ none ↦ some g | some h ↦ some h ]

abbrev pub first_grapheme : List Text → Option Text
first_grapheme [] = none
first_grapheme (g ∷ gs) = some g

unfoldable pub exceeds_limit : TextInputState → ℕ → Bool
exceeds_limit s bytes = elim (s.max_bytes) [
  | none ↦ false
  | some limit ↦ ltb (limit - byte_len s.text) bytes
]

-- the loop of `paste` over the visible characters; `none` is its early return
unfoldable pub count_bytes : ℕ → ℕ → Text → Option ℕ
count_bytes remaining bytes [] = some bytes
count_bytes remaining bytes (c ∷ s) =
    let rest = count_bytes remaining (bytes + len_utf8 c) s in
    if ltb remaining (bytes + len_utf8 c) then none else rest

pub data KeyCode : Type 0 where
  char : ℕ → KeyCode
  backspace delete left right home end up down page_up page_down enter esc other_key : KeyCode

pub data KeyModifiers : Type 0 where
  no_modifiers shift other_modifiers : KeyModifiers

pub record KeyEvent : Type 0 where
  pub code : KeyCode
  pub modifiers : KeyModifiers

module _ (segmentation : Segmentation) where
  open segmentation use {graphemes}

  unfoldable pub set_cursor : TextInputState → ℕ → TextInputState × Bool
  set_cursor s cursor =
      let target =
        if leb (byte_len s.text) cursor
        then byte_len s.text
        else last_start 0 cursor (starts 0 (graphemes s.text)) in
      (record s { cursor = target }, not (s.cursor == target))

  unfoldable pub snap_cursor_forward : TextInputState → TextInputState
  snap_cursor_forward s =
      if s.cursor == byte_len s.text
      then s
      else record s { cursor = next_start (byte_len s.text) s.cursor (starts 0 (graphemes s.text)) }

  unfoldable pub insert_text : TextInputState → Text → Option TextInputState
  insert_text s inserted = do
    (before, after) ← split_at s.text s.cursor
    some (
        snap_cursor_forward (record s {
          text = before ++ (inserted ++ after);
          cursor = s.cursor + byte_len inserted;
        }))

  unfoldable pub insert_char : TextInputState → ℕ → Option (TextInputState × InputEditOutcome)
  insert_char s c =
      if is_control c
      then some (s, unchanged)
      else if exceeds_limit s (len_utf8 c)
      then some (s, limit_reached)
      else (do s' ← insert_text s (c ∷ []); some (s', changed))

  abbrev pub remaining_bytes : TextInputState → ℕ
  remaining_bytes s = elim (s.max_bytes) [ none ↦ u64_max | some limit ↦ limit - byte_len s.text ]

  unfoldable pub paste : TextInputState → Text → Option (TextInputState × InputEditOutcome)
  paste s pasted = elim (count_bytes (remaining_bytes s) 0 (visible pasted)) [
    | none ↦ some (s, limit_reached)
    | some bytes ↦ if bytes == 0 then some (s, unchanged) else (do
      s' ← insert_text s (if bytes == byte_len pasted then pasted else visible pasted)
      some (s', changed))
  ]

  unfoldable pub move_left : TextInputState → Option (TextInputState × Bool)
  move_left s = do
    (before, _) ← split_at s.text s.cursor
    elim (last_grapheme (graphemes before)) [
      | none ↦ some (s, false)
      | some g ↦ some (record s { cursor = byte_len before - byte_len g }, true)
    ]

  unfoldable pub move_right : TextInputState → Option (TextInputState × Bool)
  move_right s = do
    (_, after) ← split_at s.text s.cursor
    elim (first_grapheme (graphemes after)) [
      | none ↦ some (s, false)
      | some g ↦ some (record s { cursor = s.cursor + byte_len g }, true)
    ]

  abbrev pub move_home : TextInputState → TextInputState × Bool
  move_home s = (record s { cursor = 0 }, not (s.cursor == 0))

  abbrev pub move_end : TextInputState → TextInputState × Bool
  move_end s = (record s { cursor = byte_len s.text }, not (s.cursor == byte_len s.text))

  unfoldable pub remove_before : TextInputState → Option (TextInputState × InputEditOutcome)
  remove_before s = do
    (before, after) ← split_at s.text s.cursor
    elim (last_grapheme (graphemes before)) [
      | none ↦ some (s, unchanged)
      | some g ↦ do
        (kept, _) ← split_at before (byte_len before - byte_len g)
        some (
          snap_cursor_forward
              (record s { text = kept ++ after; cursor = byte_len before - byte_len g }),
          changed,
        )
    ]

  unfoldable pub remove_after : TextInputState → Option (TextInputState × InputEditOutcome)
  remove_after s = do
    (before, after) ← split_at s.text s.cursor
    elim (first_grapheme (graphemes after)) [
      | none ↦ some (s, unchanged)
      | some g ↦ do
        (_, kept) ← split_at after (byte_len g)
        some (snap_cursor_forward (record s { text = before ++ kept }), changed)
    ]

  abbrev pub only_moved : TextInputState × Bool → TextInputState × InputEditOutcome
  only_moved (s, _) = (s, unchanged)

  unfoldable pub handle_plain :
      TextInputState → KeyCode → Option (TextInputState × InputEditOutcome)
  handle_plain s (char c) = insert_char s c
  handle_plain s backspace = remove_before s
  handle_plain s delete = remove_after s
  handle_plain s left = do moved ← move_left s; some (only_moved moved)
  handle_plain s right = do moved ← move_right s; some (only_moved moved)
  handle_plain s home = some (only_moved (move_home s))
  handle_plain s end = some (only_moved (move_end s))
  handle_plain s _ = some (s, unchanged)

  unfoldable pub handle_shifted :
      TextInputState → KeyCode → Option (TextInputState × InputEditOutcome)
  handle_shifted s (char c) = insert_char s c
  handle_shifted s _ = some (s, unchanged)

  unfoldable pub handle_modified :
      TextInputState → KeyCode → KeyModifiers → Option (TextInputState × InputEditOutcome)
  unfolding handle_plain handle_shifted
  handle_modified s code no_modifiers = handle_plain s code
  handle_modified s code shift = handle_shifted s code
  handle_modified s code other_modifiers = some (s, unchanged)

  unfoldable pub handle_key : TextInputState → KeyEvent → Option (TextInputState × InputEditOutcome)
  unfolding handle_modified
  handle_key s key = handle_modified s key.code key.modifiers
