-- ===== src/Input/TextInput/Keys.antt =====
-- What each key does to a text field, `handle_key` of src/text_input/state.rs.
use fluxcope.Common.{
  ℕ, ◌+◌, ◌-◌, ◌≤◌, ◌≡◌, refl, sym, ap, subst, ◌∙◌, ◌⊎◌, inl, inr, false, Option, none, some, List,
  [], ◌∷◌, ◌++◌, append_assoc, append-nil, arith, Bool-cases,
}
use fluxcope.Common.Outcome.Panic.{◌>>=◌}
use fluxcope.Common.Text.{Text}
use fluxcope.Common.Text.Utf8.{byte_len, len_utf8, split_at}
use fluxcope.Common.Text.Utf8.Slices.{split_at-append}
use fluxcope.Common.Text.Utf8.Decoding.{byte_len-append}
use fluxcope.Input.TextInput.{
  Segmentation, TextInputState, InputEditOutcome, changed, unchanged, limit_reached, joined,
  is_control, first_grapheme, insert_char, move_left, move_right, remove_before, remove_after,
  KeyCode, char, backspace, delete, left, right, home, end, up, down, page_up, page_down, enter,
  esc, other_key, KeyModifiers, no_modifiers, shift, other_modifiers, KeyEvent, handle_plain,
  handle_shifted, handle_modified, handle_key,
}
use fluxcope.Input.TextInput.Boundary.{
  Cuts, IsValid, Fits, sides, end_cut, snap_cursor_forward-IsValid, joined-append,
  last_grapheme-cases,
}
use fluxcope.Input.TextInput.Editing.{HasRoom, Inserts, insert_text-Inserts, exceeds_limit-cases}

Fits-le : (limit : Option ℕ) (a b : ℕ) → a ≤ b → Fits limit b → Fits limit a
Fits-le none a b h f = tt
Fits-le (some limit) a b h f = omega arith

first_grapheme-cases :
    (gs : List Text)
    → ((gs ≡ []) × (first_grapheme gs ≡ none))
      ⊎ ((g : Text) × (kept : List Text) × (gs ≡ g ∷ kept) × (first_grapheme gs ≡ some g))
first_grapheme-cases [] = inl (refl, refl)
first_grapheme-cases (g ∷ gs) = inr (g, gs, refl, refl)

module _ (segmentation : Segmentation) (s : TextInputState) (v : IsValid segmentation s) where
  -- What a key may do: insert a visible character at the cursor, remove the grapheme before it or the
  -- one behind it, or leave the text as it is.
  abbrev pub Did : TextInputState → InputEditOutcome → Type 0
  Did s' changed =
      ((c : ℕ) × (is_control c ≡ false) × Inserts segmentation s v (c ∷ []) s')
      ⊎ ((g : Text) × (kept : List Text) × (v.cut.before ≡ kept ++ g ∷ [])
          × (s'.text ≡ joined kept ++ joined v.cut.after))
      ⊎ ((g : Text) × (kept : List Text) × (v.cut.after ≡ g ∷ kept)
          × (s'.text ≡ joined v.cut.before ++ joined kept))
  Did s' unchanged = s'.text ≡ s.text
  Did s' limit_reached = s' ≡ s

  -- a result of a key, after which the cursor stands between graphemes again
  abbrev pub Returns : Option (TextInputState × InputEditOutcome) → Type 0
  Returns r =
      (s' : TextInputState) × (outcome : InputEditOutcome) × (r ≡ some (s', outcome))
      × IsValid segmentation s'
      × Did s' outcome

  stays : Returns (some (s, unchanged))
  stays = (s, unchanged, refl, v, refl)

  moves :
      (cursor : ℕ)
      → Cuts (segmentation.graphemes s.text) 0 cursor
      → Returns (some (record s { cursor = cursor }, unchanged))
  moves cursor c =
      (record s { cursor = cursor }, unchanged, refl, record { cut = c; within = v.within }, refl)

  insert_char-Returns : (c : ℕ) → Returns (insert_char segmentation s c)
  unfolding insert_char
  insert_char-Returns c = elim (Bool-cases (is_control c)) [
    | inl control ↦ rw control stays
    | inr printed ↦ rw printed (elim (exceeds_limit-cases segmentation s v (len_utf8 c)) [
      | inr (over, _) ↦ rw over (s, limit_reached, refl, v, refl)
      | inl (fits, room) ↦
          let one : len_utf8 c ≡ byte_len (c ∷ []) = unfold byte_len in omega arith in
          let (s', e, i) =
            insert_text-Inserts segmentation s v (c ∷ []) (subst (HasRoom s) one room) in
          rw (fits, e) (s', changed, refl, i.valid, inl (c, printed, i))
    ])
  ]

  -- the last grapheme before the cursor
  module _ (g : Text) (kept : List Text) (e : v.cut.before ≡ kept ++ g ∷ []) where
    before_is : joined v.cut.before ≡ joined kept ++ g
    before_is =
        ap joined e
        ∙ joined-append kept (g ∷ [])
        ∙ ap (λ t. joined kept ++ t) (unfold joined in append-nil g)

    shorter : byte_len (joined v.cut.before) - byte_len g ≡ byte_len (joined kept)
    shorter = omega (arith, ap byte_len before_is, byte_len-append (joined kept) g)

    left_cut : Cuts (segmentation.graphemes s.text) 0 (byte_len (joined kept))
    left_cut = record {
      before = kept;
      after = g ∷ v.cut.after;
      pieces = v.cut.pieces ∙ ap (λ l. l ++ v.cut.after) e ∙ append_assoc kept (g ∷ []) v.cut.after;
      place_is = omega arith;
    }

  move_left-Returns : Returns (move_left segmentation s >>= λ moved. some (moved.0, unchanged))
  unfolding move_left
  move_left-Returns =
      let b = sides segmentation s v in
      elim (last_grapheme-cases v.cut.before) [
        | inl (e, l) ↦ rw (b.split, ◌>>=◌) (rw b.before_is (rw l stays))
        | inr (g, kept, e, l) ↦
            rw (b.split, ◌>>=◌)
              (rw b.before_is
                (rw l (rw (shorter g kept e) (moves (byte_len (joined kept)) (left_cut g kept e)))))
      ]

  remove_before-Returns : Returns (remove_before segmentation s)
  unfolding remove_before
  remove_before-Returns =
      let b = sides segmentation s v in
      elim (last_grapheme-cases v.cut.before) [
        | inl (e, l) ↦ rw (b.split, ◌>>=◌) (rw b.before_is (rw l stays))
        | inr (g, kept, e, l) ↦
            let o =
              ap byte_len b.text_is ∙ byte_len-append (joined v.cut.before) (joined v.cut.after) in
            let n = byte_len-append (joined kept) (joined v.cut.after) in
            let (valid, same, _, _) =
              snap_cursor_forward-IsValid segmentation
                (record s {
                  text = joined kept ++ joined v.cut.after;
                  cursor = byte_len (joined kept);
                })
                (omega arith)
                (Fits-le s.max_bytes _ (byte_len s.text)
                  (omega (arith, ap byte_len (before_is g kept e), byte_len-append (joined kept) g))
                  v.within) in
            rw (b.split, ◌>>=◌)
              (rw b.before_is (
                rw l (
                  rw (shorter g kept e) (
                    rw
                      (subst (λ t. split_at t (byte_len (joined kept)) ≡ some (joined kept, g))
                        (sym (before_is g kept e)) (split_at-append (joined kept) g))
                      (_, changed, refl, valid, inr (inl (g, kept, e, same)))))))
      ]

  -- the first grapheme behind the cursor
  module _ (g : Text) (kept : List Text) (e : v.cut.after ≡ g ∷ kept) where
    after_is : joined v.cut.after ≡ g ++ joined kept
    after_is = ap joined e ∙ unfold joined in refl

    right_cut : Cuts (segmentation.graphemes s.text) 0 (s.cursor + byte_len g)
    right_cut =
        let b = sides segmentation s v in
        let one : joined (g ∷ []) ≡ g = unfold joined in append-nil g in
        record {
          before = v.cut.before ++ g ∷ [];
          after = kept;
          pieces =
              v.cut.pieces
              ∙ ap (λ l. v.cut.before ++ l) e
              ∙ sym (append_assoc v.cut.before (g ∷ []) kept);
          place_is = omega (
            arith,
            b.cursor_is,
            ap byte_len
                (joined-append v.cut.before (g ∷ []) ∙ ap (λ t. joined v.cut.before ++ t) one),
            byte_len-append (joined v.cut.before) g,
          );
        }

  move_right-Returns : Returns (move_right segmentation s >>= λ moved. some (moved.0, unchanged))
  unfolding move_right
  move_right-Returns =
      let b = sides segmentation s v in
      elim (first_grapheme-cases v.cut.after) [
        | inl (e, l) ↦ rw (b.split, ◌>>=◌) (rw b.after_is (rw l stays))
        | inr (g, kept, e, l) ↦
            rw (b.split, ◌>>=◌)
              (rw b.after_is (rw l (moves (s.cursor + byte_len g) (right_cut g kept e))))
      ]

  remove_after-Returns : Returns (remove_after segmentation s)
  unfolding remove_after
  remove_after-Returns =
      let b = sides segmentation s v in
      elim (first_grapheme-cases v.cut.after) [
        | inl (e, l) ↦ rw (b.split, ◌>>=◌) (rw b.after_is (rw l stays))
        | inr (g, kept, e, l) ↦
            let o =
              ap byte_len b.text_is ∙ byte_len-append (joined v.cut.before) (joined v.cut.after) in
            let n = byte_len-append (joined v.cut.before) (joined kept) in
            let m = ap byte_len (after_is g kept e) ∙ byte_len-append g (joined kept) in
            let (valid, same, _, _) =
              snap_cursor_forward-IsValid segmentation
                (record s { text = joined v.cut.before ++ joined kept })
                (omega (arith, b.cursor_is))
                (Fits-le s.max_bytes _ (byte_len s.text) (omega arith) v.within) in
            rw (b.split, ◌>>=◌)
              (rw b.after_is (
                rw l (
                  rw
                    (subst (λ t. split_at t (byte_len g) ≡ some (g, joined kept))
                      (sym (after_is g kept e)) (split_at-append g (joined kept)))
                    (_, changed, refl, valid, inr (inr (g, kept, e, same))))))
      ]

  handle_plain-Returns : (code : KeyCode) → Returns (handle_plain segmentation s code)
  unfolding handle_plain
  handle_plain-Returns (char c) = insert_char-Returns c
  handle_plain-Returns backspace = remove_before-Returns
  handle_plain-Returns delete = remove_after-Returns
  handle_plain-Returns left = move_left-Returns
  handle_plain-Returns right = move_right-Returns
  handle_plain-Returns home = moves 0 (record {
    before = [];
    after = segmentation.graphemes s.text;
    pieces = refl;
    place_is = unfold joined in unfold byte_len in omega arith;
  })
  handle_plain-Returns end = moves (byte_len s.text) (end_cut segmentation s.text)
  handle_plain-Returns up = stays
  handle_plain-Returns down = stays
  handle_plain-Returns page_up = stays
  handle_plain-Returns page_down = stays
  handle_plain-Returns enter = stays
  handle_plain-Returns esc = stays
  handle_plain-Returns other_key = stays

  handle_shifted-Returns : (code : KeyCode) → Returns (handle_shifted segmentation s code)
  unfolding handle_shifted
  handle_shifted-Returns (char c) = insert_char-Returns c
  handle_shifted-Returns backspace = stays
  handle_shifted-Returns delete = stays
  handle_shifted-Returns left = stays
  handle_shifted-Returns right = stays
  handle_shifted-Returns home = stays
  handle_shifted-Returns end = stays
  handle_shifted-Returns up = stays
  handle_shifted-Returns down = stays
  handle_shifted-Returns page_up = stays
  handle_shifted-Returns page_down = stays
  handle_shifted-Returns enter = stays
  handle_shifted-Returns esc = stays
  handle_shifted-Returns other_key = stays

  handle_modified-Returns :
      (code : KeyCode) (modifiers : KeyModifiers)
      → Returns (handle_modified segmentation s code modifiers)
  unfolding handle_modified
  handle_modified-Returns code no_modifiers = handle_plain-Returns code
  handle_modified-Returns code shift = handle_shifted-Returns code
  handle_modified-Returns code other_modifiers = stays

  -- On a field whose cursor stands between graphemes and whose text is within its limit, every key
  -- returns and keeps both: it inserts one character that is not a control at the cursor, removes the
  -- grapheme before it or the one behind it, or leaves the text; a full field is left as it was.
  pub handle_key-Returns : (key : KeyEvent) → Returns (handle_key segmentation s key)
  unfolding handle_key
  handle_key-Returns key = handle_modified-Returns key.code key.modifiers
