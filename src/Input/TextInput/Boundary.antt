-- ===== src/Input/TextInput/Boundary.antt =====
-- The cursor of src/text_input/state.rs stands between two graphemes.
use fluxcope.Common.{
  ℕ, ◌+◌, ◌≤◌, ◌≡◌, refl, sym, ap, subst, ◌∙◌, ◌⊎◌, inl, inr, Option, none, some, List, [], ◌∷◌,
  ◌++◌, append_assoc, append-nil, arith, leb, ◌==◌, Bool-cases, ==_iff,
}
use fluxcope.Common.Text.{Text}
use fluxcope.Common.Text.Utf8.{byte_len, split_at}
use fluxcope.Common.Text.Utf8.Slices.{split_at-append}
use fluxcope.Common.Text.Utf8.Decoding.{byte_len-append}
use fluxcope.Input.TextInput.{
  Segmentation, TextInputState, joined, starts, next_start, last_start, last_grapheme,
  snap_cursor_forward, set_cursor,
}

pub joined-append : (xs ys : List Text) → joined (xs ++ ys) ≡ joined xs ++ joined ys
unfolding joined
joined-append [] ys = refl
joined-append (x ∷ xs) ys =
    ap (λ t. x ++ t) (joined-append xs ys) ∙ sym (append_assoc x (joined xs) (joined ys))

-- a place between two pieces of a list, by its offset
pub record Cuts (gs : List Text) (offset place : ℕ) : Type 0 where
  pub before : List Text
  pub after : List Text
  pub pieces : gs ≡ before ++ after
  pub place_is : place ≡ offset + byte_len (joined before)

first_cut : (gs : List Text) (offset : ℕ) → Cuts gs offset offset
first_cut gs offset = record {
  before = [];
  after = gs;
  pieces = refl;
  place_is = unfold joined in unfold byte_len in omega arith;
}

later_cut :
    {g : Text} {gs : List Text} {offset place : ℕ}
    → Cuts gs (offset + byte_len g) place
    → Cuts (g ∷ gs) offset place
later_cut {g} {gs} {offset} {place} c = record {
  before = g ∷ c.before;
  after = c.after;
  pieces = ap (λ l. g ∷ l) c.pieces;
  place_is = unfold joined in omega (arith, c.place_is, byte_len-append g (joined c.before));
}

pub next_start-Cuts :
    (cursor offset : ℕ) (gs : List Text) (end : ℕ)
    → end ≡ offset + byte_len (joined gs)
    → cursor ≤ end
    → Cuts gs offset (next_start end cursor (starts offset gs))
      × (cursor ≤ next_start end cursor (starts offset gs))
unfolding next_start starts
next_start-Cuts cursor offset [] end e h =
    (record { before = []; after = []; pieces = refl; place_is = e }, h)
next_start-Cuts cursor offset (g ∷ gs) end e h =
    let (c, k) =
      next_start-Cuts cursor (offset + byte_len g) gs end
        (unfold joined in omega (arith, e, byte_len-append g (joined gs))) h in
    elim (Bool-cases (leb cursor offset)) [
      | inl here ↦ rw here (first_cut (g ∷ gs) offset, ground arith)
      | inr on ↦ rw on (later_cut c, k)
    ]

pub last_start-Cuts :
    (otherwise cursor offset : ℕ) (gs : List Text)
    → (last_start otherwise cursor (starts offset gs) ≡ otherwise)
      ⊎ Cuts gs offset (last_start otherwise cursor (starts offset gs))
unfolding last_start starts
last_start-Cuts otherwise cursor offset [] = inl refl
last_start-Cuts otherwise cursor offset (g ∷ gs) =
    let ih = last_start-Cuts offset cursor (offset + byte_len g) gs in
    elim (Bool-cases (leb offset cursor)) [
      | inr far ↦ inl (rw far)
      | inl near ↦ rw near (elim ih [
        | inl e ↦ inr (subst (Cuts (g ∷ gs) offset) (sym e) (first_cut (g ∷ gs) offset))
        | inr c ↦ inr (later_cut c)
      ])
    ]

-- the last piece
pub last_grapheme-cases :
    (gs : List Text)
    → ((gs ≡ []) × (last_grapheme gs ≡ none))
      ⊎ ((g : Text) × (kept : List Text) × (gs ≡ kept ++ g ∷ []) × (last_grapheme gs ≡ some g))
unfolding last_grapheme
last_grapheme-cases [] = inl (refl, refl)
last_grapheme-cases (g ∷ gs) = elim (last_grapheme-cases gs) [
  | inl (e, l) ↦ inr (g, [], ap (λ t. g ∷ t) e, rw l)
  | inr (h, kept, e, l) ↦ inr (h, g ∷ kept, ap (λ t. g ∷ t) e, rw l)
]

-- a length within the limit, if there is one
abbrev pub Fits : Option ℕ → ℕ → Type 0
Fits none n = Unit {0}
Fits (some limit) n = n ≤ limit

-- The cursor stands between graphemes, and the text is within its limit.
pub record IsValid (segmentation : Segmentation) (s : TextInputState) : Type 0 where
  pub cut : Cuts (segmentation.graphemes s.text) 0 s.cursor
  pub within : Fits s.max_bytes (byte_len s.text)

module _ (segmentation : Segmentation) where
  open segmentation use {graphemes, graphemes_joined, graphemes_cut}

  whole_len : (t : Text) → byte_len t ≡ 0 + byte_len (joined (graphemes t))
  whole_len t = ap byte_len (sym (graphemes_joined t)) ∙ omega arith

  pub end_cut : (t : Text) → Cuts (graphemes t) 0 (byte_len t)
  end_cut t = record {
    before = graphemes t;
    after = [];
    pieces = sym (append-nil (graphemes t));
    place_is = whole_len t;
  }

  -- the cursor is moved on to a place between graphemes
  pub snap_cursor_forward-IsValid :
      (s : TextInputState)
      → s.cursor ≤ byte_len s.text
      → Fits s.max_bytes (byte_len s.text)
      → IsValid segmentation (snap_cursor_forward segmentation s)
        × ((snap_cursor_forward segmentation s).text ≡ s.text)
        × ((snap_cursor_forward segmentation s).max_bytes ≡ s.max_bytes)
        × (s.cursor ≤ (snap_cursor_forward segmentation s).cursor)
  unfolding snap_cursor_forward
  snap_cursor_forward-IsValid s h f =
      let (c, k) =
        next_start-Cuts s.cursor 0 (graphemes s.text) (byte_len s.text) (whole_len s.text) h in
      elim (Bool-cases (s.cursor == byte_len s.text)) [
        | inl at ↦ rw at (
          record {
            cut = subst (Cuts (graphemes s.text) 0) (sym ((==_iff _ _).0 at)) (end_cut s.text);
            within = f;
          },
          refl,
          refl,
          omega arith,
        )
        | inr inside ↦ rw inside (record { cut = c; within = f }, refl, refl, k)
      ]

  -- the two sides of the cursor
  pub record Sides (s : TextInputState) (before after : List Text) : Type 0 where
    pub split : split_at s.text s.cursor ≡ some (joined before, joined after)
    pub text_is : s.text ≡ joined before ++ joined after
    pub cursor_is : s.cursor ≡ byte_len (joined before)
    pub before_is : graphemes (joined before) ≡ before
    pub after_is : graphemes (joined after) ≡ after

  pub sides : (s : TextInputState) (v : IsValid segmentation s) → Sides s v.cut.before v.cut.after
  sides s v =
      let t =
        sym (graphemes_joined s.text)
        ∙ ap joined v.cut.pieces
        ∙ joined-append v.cut.before v.cut.after in
      let c : s.cursor ≡ byte_len (joined v.cut.before) = omega (arith, v.cut.place_is) in
      let (a, b) = graphemes_cut s.text v.cut.before v.cut.after v.cut.pieces in
      record {
        split = rw c (rw t (split_at-append (joined v.cut.before) (joined v.cut.after)));
        text_is = t;
        cursor_is = c;
        before_is = a;
        after_is = b;
      }

-- placing the cursor anywhere puts it between graphemes
pub set_cursor-IsValid :
    (segmentation : Segmentation) (s : TextInputState) (cursor : ℕ)
    → Fits s.max_bytes (byte_len s.text)
    → IsValid segmentation (set_cursor segmentation s cursor).0
unfolding set_cursor
set_cursor-IsValid segmentation s cursor f = elim (Bool-cases (leb (byte_len s.text) cursor)) [
  | inl past ↦ rw past (record { cut = end_cut segmentation s.text; within = f })
  | inr inside ↦ rw inside (record {
    cut = elim (last_start-Cuts 0 cursor 0 (segmentation.graphemes s.text)) [
      | inl e ↦
          subst (Cuts (segmentation.graphemes s.text) 0) (sym e)
            (first_cut (segmentation.graphemes s.text) 0)
      | inr c ↦ c
    ];
    within = f;
  })
]
