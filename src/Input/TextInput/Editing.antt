-- ===== src/Input/TextInput/Editing.antt =====
-- What the keys and a paste do to a text field, src/text_input/state.rs.
use fluxcope.Common.{
  ℕ, ◌+◌, ◌-◌, ◌≤◌, ◌≡◌, refl, sym, ap, subst, ◌∙◌, ◌⊎◌, inl, inr, true, false, Option, none, some,
  [], ◌∷◌, ◌++◌, arith, leb, ltb, ◌==◌, if◌then◌else◌, Bool-cases, ==_iff, u64_max,
}
use fluxcope.Common.Text.{Text}
use fluxcope.Common.Text.Utf8.{byte_len, len_utf8}
use fluxcope.Common.Text.Utf8.Slices.{len_utf8_pos}
use fluxcope.Common.Text.Utf8.Decoding.{byte_len-append}
use fluxcope.Input.TextInput.{
  Segmentation, TextInputState, InputEditOutcome, changed, unchanged, limit_reached, joined,
  visible, count_bytes, snap_cursor_forward, insert_text, paste, remaining_bytes, exceeds_limit,
}
use fluxcope.Input.TextInput.Boundary.{IsValid, Fits, sides, snap_cursor_forward-IsValid}

-- whether so many more bytes fit
abbrev pub HasRoom : TextInputState → ℕ → Type 0
HasRoom s bytes = Fits s.max_bytes (byte_len s.text + bytes)

module _ (segmentation : Segmentation) (s : TextInputState) (v : IsValid segmentation s) where
  -- the field with `inserted` at the cursor, which stands behind it
  pub record Inserts (inserted : Text) (s' : TextInputState) : Type 0 where
    pub text_is : s'.text ≡ joined v.cut.before ++ (inserted ++ joined v.cut.after)
    pub behind : s.cursor + byte_len inserted ≤ s'.cursor
    pub max_same : s'.max_bytes ≡ s.max_bytes
    pub valid : IsValid segmentation s'

  pub insert_text-Inserts :
      (inserted : Text)
      → HasRoom s (byte_len inserted)
      → (s' : TextInputState) × (insert_text segmentation s inserted ≡ some s')
        × Inserts inserted s'
  unfolding insert_text
  insert_text-Inserts inserted room =
      let b = sides segmentation s v in
      let before = joined v.cut.before in
      let after = joined v.cut.after in
      let moved : TextInputState = record s {
        text = before ++ (inserted ++ after);
        cursor = s.cursor + byte_len inserted;
      } in
      let n = byte_len-append before (inserted ++ after) in
      let m = byte_len-append inserted after in
      let o : byte_len s.text ≡ byte_len before + byte_len after =
        ap byte_len b.text_is ∙ byte_len-append before after in
      let total : byte_len s.text + byte_len inserted ≡ byte_len (before ++ (inserted ++ after)) =
        omega arith in
      let (valid, text_is, max_is, k) =
        snap_cursor_forward-IsValid segmentation moved (omega (arith, b.cursor_is))
          (subst (Fits s.max_bytes) total room) in
      (
        snap_cursor_forward segmentation moved,
        rw b.split,
        record { text_is = text_is; behind = k; max_same = max_is; valid = valid },
      )

  pub exceeds_limit-cases :
      (bytes : ℕ)
      → ((exceeds_limit s bytes ≡ false) × HasRoom s bytes)
        ⊎ ((exceeds_limit s bytes ≡ true) × (HasRoom s bytes → ⊥))
  unfolding exceeds_limit
  exceeds_limit-cases bytes = cases s.max_bytes v.within
    where
      cases :
          (limit : Option ℕ)
          → Fits limit (byte_len s.text)
          → (((elim limit [ none ↦ false | some limit ↦ ltb (limit - byte_len s.text) bytes ])
                ≡ false)
              × Fits limit (byte_len s.text + bytes))
            ⊎ (((elim limit [ none ↦ false | some limit ↦ ltb (limit - byte_len s.text) bytes ])
                  ≡ true)
                × (Fits limit (byte_len s.text + bytes) → ⊥))
      cases none f = inl (refl, tt)
      cases (some limit) f = elim (Bool-cases (ltb (limit - byte_len s.text) bytes)) [
        | inl over ↦ inr (over, λ h. absurd (ground (arith, over)))
        | inr fits ↦ inl (fits, ground arith)
      ]

visible_le : (t : Text) → byte_len (visible t) ≤ byte_len t
unfolding visible byte_len
visible_le [] = omega arith
visible_le (c ∷ t) = ground (arith, visible_le t)

-- a text that loses no byte loses no character
visible_same : (t : Text) → byte_len (visible t) ≡ byte_len t → visible t ≡ t
unfolding visible byte_len
visible_same [] e = refl
visible_same (c ∷ t) e = ground (arith, visible_le t, len_utf8_pos c, visible_same t)

count_bytes_lem :
    (remaining bytes : ℕ) (t : Text)
    → bytes ≤ remaining
    → count_bytes remaining bytes t
      ≡ (if leb (bytes + byte_len t) remaining then some (bytes + byte_len t) else none)
unfolding count_bytes byte_len
count_bytes_lem remaining bytes [] h = ground arith
count_bytes_lem remaining bytes (c ∷ t) h =
    let assoc : bytes + (len_utf8 c + byte_len t) ≡ bytes + len_utf8 c + byte_len t = omega arith in
    elim (Bool-cases (ltb remaining (bytes + len_utf8 c))) [
      | inl over ↦ ground (arith, over)
      | inr fits ↦
          rw (fits, assoc) (count_bytes_lem remaining (bytes + len_utf8 c) t (ground arith))
    ]

module _ (segmentation : Segmentation) (s : TextInputState) (v : IsValid segmentation s) where
  -- A paste inserts the visible characters if there are any and they fit; else the field is as it was.
  abbrev pub Pasted : Text → TextInputState → InputEditOutcome → Type 0
  Pasted pasted s' changed =
      HasRoom s (byte_len (visible pasted)) × Inserts segmentation s v (visible pasted) s'
  Pasted pasted s' unchanged = (byte_len (visible pasted) ≡ 0) × (s' ≡ s)
  Pasted pasted s' limit_reached = (HasRoom s (byte_len (visible pasted)) → ⊥) × (s' ≡ s)

  remaining-HasRoom :
      (n : ℕ)
      → n ≤ u64_max
      → ((leb n (remaining_bytes segmentation s) ≡ true) × HasRoom s n)
        ⊎ ((leb n (remaining_bytes segmentation s) ≡ false) × (HasRoom s n → ⊥))
  remaining-HasRoom n h = cases s.max_bytes v.within
    where
      cases :
          (limit : Option ℕ)
          → Fits limit (byte_len s.text)
          → ((leb n (elim limit [ none ↦ u64_max | some limit ↦ limit - byte_len s.text ]) ≡ true)
              × Fits limit (byte_len s.text + n))
            ⊎ ((leb n (elim limit [ none ↦ u64_max | some limit ↦ limit - byte_len s.text ])
                  ≡ false)
                × (Fits limit (byte_len s.text + n) → ⊥))
      cases none f = inl (ground arith, tt)
      cases (some limit) f = elim (Bool-cases (leb n (limit - byte_len s.text))) [
        | inl fits ↦ inl (fits, ground arith)
        | inr over ↦ inr (over, λ k. absurd (ground (arith, over)))
      ]

  paste-inserts :
      (pasted : Text) (s' : TextInputState)
      → leb (byte_len (visible pasted)) (remaining_bytes segmentation s) ≡ true
      → (byte_len (visible pasted) == 0) ≡ false
      → insert_text segmentation s (visible pasted) ≡ some s'
      → paste segmentation s pasted ≡ some (s', changed)
  unfolding paste
  paste-inserts pasted s' fits more e =
      let z : 0 + byte_len (visible pasted) ≡ byte_len (visible pasted) = omega arith in
      let c = count_bytes_lem (remaining_bytes segmentation s) 0 (visible pasted) (omega arith) in
      elim (Bool-cases (byte_len (visible pasted) == byte_len pasted)) [
        | inl all ↦
            let same = visible_same pasted ((==_iff _ _).0 all) in
            let e' : insert_text segmentation s pasted ≡ some s' =
              ap (insert_text segmentation s) (sym same) ∙ e in
            rw (c, paste) (rw (z, fits) (rw (more, all) (rw e')))
        | inr less ↦ rw (c, paste) (rw (z, fits) (rw (more, less) (rw e)))
      ]

  paste_nothing :
      (pasted : Text)
      → leb (byte_len (visible pasted)) (remaining_bytes segmentation s) ≡ true
      → (byte_len (visible pasted) == 0) ≡ true
      → paste segmentation s pasted ≡ some (s, unchanged)
  unfolding paste
  paste_nothing pasted fits more =
      let z : 0 + byte_len (visible pasted) ≡ byte_len (visible pasted) = omega arith in
      let c = count_bytes_lem (remaining_bytes segmentation s) 0 (visible pasted) (omega arith) in
      rw (c, paste) (rw (z, fits) (rw more))

  paste_full :
      (pasted : Text)
      → leb (byte_len (visible pasted)) (remaining_bytes segmentation s) ≡ false
      → paste segmentation s pasted ≡ some (s, limit_reached)
  unfolding paste
  paste_full pasted over =
      let z : 0 + byte_len (visible pasted) ≡ byte_len (visible pasted) = omega arith in
      let c = count_bytes_lem (remaining_bytes segmentation s) 0 (visible pasted) (omega arith) in
      rw (c, paste) (rw (z, over))

  -- On a field whose cursor stands between graphemes and whose text is within its limit, pasting a text
  -- of at most the largest word of bytes returns: it inserts all visible characters at the cursor, with
  -- the cursor behind them and again between graphemes, or, where they do not all fit or there are
  -- none, changes nothing and says which.
  pub paste-Pasted :
      (pasted : Text)
      → byte_len pasted ≤ u64_max
      → (s' : TextInputState) × (outcome : InputEditOutcome) × (paste segmentation s pasted
          ≡ some (s', outcome))
        × Pasted pasted s' outcome
  paste-Pasted pasted h =
      elim (remaining-HasRoom (byte_len (visible pasted)) (omega (arith, visible_le pasted))) [
        | inr (over, no_room) ↦ (s, limit_reached, paste_full pasted over, (no_room, refl))
        | inl (fits, room) ↦ elim (Bool-cases (byte_len (visible pasted) == 0)) [
          | inl nothing ↦
              (s, unchanged, paste_nothing pasted fits nothing, ((==_iff _ _).0 nothing, refl))
          | inr more ↦
              let (s', e, i) = insert_text-Inserts segmentation s v (visible pasted) room in
              (s', changed, paste-inserts pasted s' fits more e, (room, i))
        ]
      ]
