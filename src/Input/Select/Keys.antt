-- ===== src/Input/Select/Keys.antt =====
-- What the keys do to a selection list, src/select.rs.
use fluxcope.Common.{
  ℕ, zero, suc, ◌+◌, ◌≤◌, ◌≡◌, refl, sym, subst, ◌∙◌, ◌⊎◌, inl, inr, Bool, true, Option, none, some,
  List, [], ◌∷◌, max, arith, u64_max, length, get_elem?, if_true, Bool-cases, Option-cases,
  le_of_get_elem?-none,
}
use fluxcope.Common.Outcome.Panic.{◌>>=◌}
use fluxcope.Common.Text.{Text, is_empty}
use fluxcope.Input.TextInput.{
  Segmentation, TextInputState, InputEditOutcome, changed, unchanged, limit_reached, KeyCode, char,
  backspace, delete, left, right, home, end, up, down, page_up, page_down, enter, esc, other_key,
  KeyEvent,
}
use fluxcope.Input.TextInput.Boundary.{IsValid}
use fluxcope.Input.TextInput.Keys.{Did, handle_key-Returns}
use fluxcope.Input.Select.{
  SelectState, SelectItem, SelectCommit, SelectOutcome, nothing, closed, committed, resolve,
  resolve_items, indices_from, keeps, shows, commit_item, commit_focused, focused_item_index, close,
  edited, edit_filter, outcome_of, handle_code, handle_key,
}
use fluxcope.Input.Select.Focus.{InView, Keeps, count_of, first-InView, move_to-InView}

module _ {ItemId : Type 0} (lowercase : Text → Text) where
  -- an index of the kept items is that of an item that is kept
  get_elem?-indices_from :
      (i j : ℕ) (shown : SelectItem ItemId → Bool) (items : List (SelectItem ItemId)) {k : ℕ}
      → get_elem? (indices_from lowercase i shown items) j ≡ some k
      → (d : ℕ) × (item : SelectItem ItemId) × (k ≡ i + d)
        × (get_elem? items d ≡ some item)
        × (shown item ≡ true)
  unfolding indices_from
  get_elem?-indices_from i j shown [] h = cc
  get_elem?-indices_from i j shown (item ∷ items) {k} h = elim (Bool-cases (shown item)) [
    | inr hidden ↦
        let h' : get_elem? (indices_from lowercase (i + 1) shown items) j ≡ some k =
          rw hidden at h in
        let (d, it, e, g, t) = get_elem?-indices_from (i + 1) j shown items h' in
        (suc d, it, omega arith, g, t)
    | inl kept ↦
        let h' : get_elem? (i ∷ indices_from lowercase (i + 1) shown items) j ≡ some k =
          rw kept at h in
        at j h' kept λ j' h''. get_elem?-indices_from (i + 1) j' shown items h''
  ]
    where
      at :
          (j : ℕ)
          → get_elem? (i ∷ indices_from lowercase (i + 1) shown items) j ≡ some k
          → shown item ≡ true
          → ((j' : ℕ)
              → get_elem? (indices_from lowercase (i + 1) shown items) j' ≡ some k
              → (d : ℕ) × (it : SelectItem ItemId) × (k ≡ i + 1 + d)
                × (get_elem? items d ≡ some it)
                × (shown it ≡ true))
          → (d : ℕ) × (it : SelectItem ItemId) × (k ≡ i + d)
            × (get_elem? (item ∷ items) d ≡ some it)
            × (shown it ≡ true)
      at zero h' kept ih = (0, item, ground arith, refl, kept)
      at (suc j') h' kept ih = let (d, it, e, g, t) = ih j' h' in (suc d, it, omega arith, g, t)

  -- an index of the list under its filter
  pub get_elem?-resolve :
      (filter : Text) (items : List (SelectItem ItemId)) (j : ℕ) {k : ℕ}
      → get_elem? (resolve lowercase filter items) j ≡ some k
      → (item : SelectItem ItemId) × (get_elem? items k ≡ some item)
        × (shows lowercase filter item ≡ true)
  unfolding resolve
  get_elem?-resolve filter items j {k} h = elim (Bool-cases (is_empty filter)) [
    | inl all ↦
        let h' : get_elem? (indices_from lowercase 0 (λ _. true) items) j ≡ some k = rw all at h in
        let (d, item, e, g, _) = get_elem?-indices_from 0 j (λ _. true) items h' in
        let z : d ≡ k = omega arith in
        (item, subst (λ x. get_elem? items x ≡ some item) z g, rw all)
    | inr some_filter ↦
        let h' : get_elem? (indices_from lowercase 0 (keeps lowercase filter) items) j ≡ some k =
          rw some_filter at h in
        let (d, item, e, g, t) = get_elem?-indices_from 0 j (keeps lowercase filter) items h' in
        let z : d ≡ k = omega arith in
        (item, subst (λ x. get_elem? items x ≡ some item) z g, rw some_filter t)
  ]

  -- A committed item is one of the list that the filter keeps.
  pub record Commits (s : SelectState) (items : List (SelectItem ItemId))
      (commit : SelectCommit ItemId) : Type 0 where
    pub index : ℕ
    pub item : SelectItem ItemId
    pub focused : focused_item_index lowercase s items ≡ some index
    pub listed : get_elem? items index ≡ some item
    pub kept : shows lowercase s.filter.text item ≡ true
    pub id_is : commit.id ≡ item.id
    pub role_is : commit.role ≡ item.role

  pub commit_focused-Commits :
      (s : SelectState) (items : List (SelectItem ItemId))
      → ((count_of lowercase items s ≤ s.focused_filtered_index)
          × (commit_focused lowercase s items ≡ none))
        ⊎ ((commit : SelectCommit ItemId) × (commit_focused lowercase s items ≡ some commit)
            × Commits s items commit)
  unfolding commit_focused focused_item_index commit_item
  commit_focused-Commits s items =
      elim (Option-cases (get_elem? (resolve_items lowercase s items) s.focused_filtered_index)) [
        | inl past ↦ inl (le_of_get_elem?-none _ _ past, rw past)
        | inr (index, at) ↦
            let (item, listed, kept) =
              get_elem?-resolve s.filter.text items s.focused_filtered_index at in
            inr (
              record { id = item.id; role = item.role },
              rw (at, ◌>>=◌) (rw listed),
              record {
                index = index;
                item = item;
                focused = at;
                listed = listed;
                kept = kept;
                id_is = refl;
                role_is = refl;
              },
            )
      ]

  module _ (segmentation : Segmentation) (items : List (SelectItem ItemId)) (n : ℕ)
      (s : SelectState) where
    -- What a key leaves: a list that is still open has its focus in view; closing forgets the filter;
    -- committing changes nothing.
    abbrev pub Handled : SelectState → SelectOutcome ItemId → Type 0
    Handled s' nothing =
        (s'.is_open ≡ true)
        × InView (count_of lowercase items s') n s'
        × IsValid segmentation s'.filter
    Handled s' closed = s' ≡ close s
    Handled s' (committed commit) = (s' ≡ s) × Commits s items commit

    abbrev pub Handles : Option (SelectState × SelectOutcome ItemId) → Type 0
    Handles r =
        (s' : SelectState) × (outcome : SelectOutcome ItemId) × (r ≡ some (s', outcome))
        × Handled s' outcome

    module _ (opened : s.is_open ≡ true) (view : InView (count_of lowercase items s) n s)
        (valid : IsValid segmentation s.filter)
        (small : count_of lowercase items s + max n 1 ≤ u64_max) where
      unmoved : Handles (some (s, nothing))
      unmoved = (s, nothing, refl, (opened, view, valid))

      moved :
          (s' : SelectState)
          → InView (count_of lowercase items s) n s' × Keeps s s'
          → Handles (some (s', nothing))
      moved s' (v, k) = (
        s',
        nothing,
        refl,
        (
          k.open_same ∙ opened,
          subst (λ f. InView (length (resolve lowercase f.text items)) n s') (sym k.filter_same) v,
          subst (IsValid segmentation) (sym k.filter_same) valid,
        ),
      )

      committing : Handles (some (s, outcome_of lowercase (commit_focused lowercase s items)))
      committing = elim (commit_focused-Commits s items) [
        | inl (_, e) ↦ rw e unmoved
        | inr (commit, e, c) ↦ rw e (s, committed commit, refl, (refl, c))
      ]

      after_edit :
          (filter : TextInputState) (outcome : InputEditOutcome)
          → IsValid segmentation filter
          → Did segmentation s.filter valid filter outcome
          → Handles (some (edited s (filter, outcome), nothing))
      after_edit filter changed v d = (_, nothing, refl, (opened, first-InView _ n _ refl refl, v))
      after_edit filter unchanged v d = (
        _,
        nothing,
        refl,
        (
          opened,
          subst (λ t. InView (length (resolve lowercase t items)) n (record s { filter = filter }))
              (sym d)
              (record {
                on_item = view.on_item;
                window_on_item = view.window_on_item;
                below_top = view.below_top;
                above_bottom = view.above_bottom;
              }),
          v,
        ),
      )
      after_edit filter limit_reached v d = (
        _,
        nothing,
        refl,
        (
          opened,
          subst
              (λ f.
                InView (length (resolve lowercase f.text items)) n (record s { filter = filter }))
              (sym d)
              (record {
                on_item = view.on_item;
                window_on_item = view.window_on_item;
                below_top = view.below_top;
                above_bottom = view.above_bottom;
              }),
          v,
        ),
      )

      editing : (key : KeyEvent) → Handles (edit_filter lowercase segmentation s key)
      editing key =
          let (filter, outcome, e, v, d) = handle_key-Returns segmentation s.filter valid key in
          rw e (after_edit filter outcome v d)

      handle_code-Handles :
          (key : KeyEvent) (code : KeyCode)
          → Handles (handle_code lowercase segmentation s key items n code)
      unfolding handle_code
      handle_code-Handles key esc = (_, closed, refl, refl)
      handle_code-Handles key enter = committing
      handle_code-Handles key up = moved _ (move_to-InView lowercase items n s small _)
      handle_code-Handles key down = moved _ (move_to-InView lowercase items n s small _)
      handle_code-Handles key page_up = moved _ (move_to-InView lowercase items n s small _)
      handle_code-Handles key page_down = moved _ (move_to-InView lowercase items n s small _)
      handle_code-Handles key backspace = editing key
      handle_code-Handles key left = editing key
      handle_code-Handles key right = editing key
      handle_code-Handles key (char c) = editing key
      handle_code-Handles key delete = unmoved
      handle_code-Handles key home = unmoved
      handle_code-Handles key end = unmoved
      handle_code-Handles key other_key = unmoved

      -- On an open list with the focus in view, with a filter whose cursor stands between graphemes, and
      -- with fewer items and rows than the largest word, every key returns; a list that stays open has the
      -- focus on an item, in the window, and such a filter; closing resets it, and a committed item is the
      -- focused one, is in the list, and is kept by the filter.
      pub handle_key-Handles :
          (key : KeyEvent) → Handles (handle_key lowercase segmentation s key items n)
      unfolding handle_key
      handle_key-Handles key =
          let (s', outcome, e, h) = handle_code-Handles key key.code in
          (s', outcome, if_true _ _ _ opened ∙ e, h)
