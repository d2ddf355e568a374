-- ===== src/Input/Select/Focus.antt =====
-- The focus of a selection list, src/select.rs: it stands on an item that is kept, in the visible window.
use fluxcope.Common.{
  ℕ, suc, ◌+◌, ◌-◌, ◌≤◌, ◌<◌, ◌≡◌, refl, ap, ◌∙◌, inl, inr, Bool, true, Option, List, [], ◌∷◌, min,
  max, arith, u64_max, sat_add, length, ltb, leb, ◌==◌, if◌then◌else◌, Bool-cases,
}
use fluxcope.Common.Text.{Text}
use fluxcope.Input.Select.{
  SelectState, SelectItem, resolve_items, indices_from, ensure_focus_visible, clamp_to, or_first,
  selected_item_index, resolve, move_to, scroll_up, scroll_down, open_with_selected,
}

-- With `count` items kept and `n` rows, the focus is on one of the items, if any, and in the window.
pub record InView (count n : ℕ) (s : SelectState) : Type 0 where
  pub on_item : s.focused_filtered_index ≤ count - 1
  pub window_on_item : s.scroll_offset ≤ count - 1
  pub below_top : s.scroll_offset ≤ s.focused_filtered_index
  pub above_bottom : s.focused_filtered_index < s.scroll_offset + max n 1

-- what an operation on the focus leaves
pub record Keeps (s s' : SelectState) : Type 0 where
  pub open_same : s'.is_open ≡ s.is_open
  pub filter_same : s'.filter ≡ s.filter

pub first-InView :
    (count n : ℕ) (s : SelectState)
    → s.focused_filtered_index ≡ 0
    → s.scroll_offset ≡ 0
    → InView count n s
first-InView count n s f o = record {
  on_item = omega arith;
  window_on_item = omega arith;
  below_top = omega arith;
  above_bottom = omega arith;
}

clamp_to_lem :
    (s : SelectState) (count : ℕ)
    → ((clamp_to s count).focused_filtered_index ≤ count - 1)
      × ((clamp_to s count).scroll_offset ≤ count - 1)
      × Keeps s (clamp_to s count)
unfolding clamp_to
clamp_to_lem s count = elim (Bool-cases (count == 0)) [
  | inl none_kept ↦
      rw none_kept (omega arith, omega arith, record { open_same = refl; filter_same = refl })
  | inr some_kept ↦
      rw some_kept (omega arith, omega arith, record { open_same = refl; filter_same = refl })
]

-- clamping a focus in a window of the rows, which begins on an item
clamp_to-InView :
    (count n : ℕ) (s : SelectState)
    → 1 ≤ n
    → s.scroll_offset ≤ count - 1
    → s.scroll_offset ≤ s.focused_filtered_index
    → s.focused_filtered_index < s.scroll_offset + n
    → InView count n (clamp_to s count)
unfolding clamp_to
clamp_to-InView count n s r o b a = elim (Bool-cases (count == 0)) [
  | inl none_kept ↦ rw none_kept (record {
    on_item = omega arith;
    window_on_item = omega arith;
    below_top = omega arith;
    above_bottom = omega arith;
  })
  | inr some_kept ↦ rw some_kept (record {
    on_item = omega arith;
    window_on_item = omega arith;
    below_top = omega arith;
    above_bottom = omega arith;
  })
]

ensure_focus_visible_lem :
    (count n : ℕ) (s : SelectState)
    → s.focused_filtered_index ≤ count - 1
    → s.scroll_offset ≤ count - 1
    → count + max n 1 ≤ u64_max
    → InView count n (ensure_focus_visible s n) × Keeps s (ensure_focus_visible s n)
unfolding ensure_focus_visible
ensure_focus_visible_lem count n s f o h =
    elim (Bool-cases (ltb s.focused_filtered_index s.scroll_offset)) [
      | inl above ↦ rw above (
        record {
          on_item = f;
          window_on_item = f;
          below_top = omega arith;
          above_bottom = omega arith;
        },
        record { open_same = refl; filter_same = refl },
      )
      | inr under ↦
          elim (Bool-cases (leb (sat_add s.scroll_offset (max n 1)) s.focused_filtered_index)) [
            | inl past ↦
                rw (under, past)
                  (
                    record {
                      on_item = f;
                      window_on_item = omega arith;
                      below_top = omega arith;
                      above_bottom = omega arith;
                    },
                    record { open_same = refl; filter_same = refl },
                  )
            | inr inside ↦
                rw (under, inside)
                  (
                    record {
                      on_item = f;
                      window_on_item = o;
                      below_top = ground arith;
                      above_bottom = ground arith;
                    },
                    record { open_same = refl; filter_same = refl },
                  )
          ]
    ]

Keeps-trans : {a b c : SelectState} → Keeps a b → Keeps b c → Keeps a c
Keeps-trans k l = record {
  open_same = l.open_same ∙ k.open_same;
  filter_same = l.filter_same ∙ k.filter_same;
}

abbrev pub count_of : {ItemId : Type 0} → (Text → Text) → List (SelectItem ItemId) → SelectState → ℕ
count_of lowercase items s = length (resolve_items lowercase s items)

module _ {ItemId : Type 0} (lowercase : Text → Text) (items : List (SelectItem ItemId)) (n : ℕ)
    (s : SelectState) (small : count_of lowercase items s + max n 1 ≤ u64_max) where
  abbrev shown : ℕ
  shown = count_of lowercase items s

  -- a move brings the focus into view from wherever it was
  pub move_to-InView :
      (focused : ℕ)
      → InView (count_of lowercase items s) n (move_to lowercase s items n focused)
        × Keeps s (move_to lowercase s items n focused)
  unfolding move_to
  move_to-InView focused =
      let placed : SelectState = record s { focused_filtered_index = focused } in
      let (f, o, k) = clamp_to_lem placed shown in
      let (v, l) = ensure_focus_visible_lem shown n (clamp_to placed shown) f o small in
      (
        v,
        record {
          open_same = l.open_same ∙ k.open_same;
          filter_same = l.filter_same ∙ k.filter_same;
        },
      )

  module _ (v : InView (count_of lowercase items s) n s) (rows : 1 ≤ n) where
    scroll_up-InView :
        InView (count_of lowercase items s) n (scroll_up lowercase s items n)
        × Keeps s (scroll_up lowercase s items n)
    unfolding scroll_up
    scroll_up-InView =
        let offset = s.scroll_offset - 1 in
        let focused =
          if leb (sat_add offset n) s.focused_filtered_index
          then sat_add offset n - 1
          else s.focused_filtered_index in
        let s' : SelectState = record s {
          scroll_offset = offset;
          focused_filtered_index = focused;
        } in
        let (_, _, k) = clamp_to_lem s' shown in
        (
          clamp_to-InView shown n s' rows (omega (arith, v.window_on_item))
              (ground (arith, v.below_top)) (ground (arith, v.above_bottom)),
          record { open_same = k.open_same; filter_same = k.filter_same },
        )

    scroll_down-InView :
        InView (count_of lowercase items s) n (scroll_down lowercase s items n)
        × Keeps s (scroll_down lowercase s items n)
    unfolding scroll_down
    scroll_down-InView =
        let offset = min (sat_add s.scroll_offset 1) (shown - n) in
        let focused = max s.focused_filtered_index offset in
        let s' : SelectState = record s {
          scroll_offset = offset;
          focused_filtered_index = focused;
        } in
        let (_, _, k) = clamp_to_lem s' shown in
        (
          clamp_to-InView shown n s' rows (omega arith) (omega arith)
              (omega (arith, v.on_item, v.above_bottom)),
          record { open_same = k.open_same; filter_same = k.filter_same },
        )

length-indices_from :
    {ItemId : Type 0} (lowercase : Text → Text) (i : ℕ) (items : List (SelectItem ItemId))
    → length (indices_from lowercase i (λ _. true) items) ≡ length items
unfolding indices_from
length-indices_from lowercase i [] = refl
length-indices_from lowercase i (item ∷ items) =
    ap suc (length-indices_from lowercase (i + 1) items)

-- Opening shows the whole list with the focus in view.
pub open_with_selected-InView :
    {ItemId : Type 0} (lowercase : Text → Text) (items : List (SelectItem ItemId)) (n : ℕ)
    (s : SelectState) (selected : Option (ItemId → Bool))
    → length items + max n 1 ≤ u64_max
    → InView (length items) n (open_with_selected lowercase s items selected n)
      × ((open_with_selected lowercase s items selected n).is_open ≡ true)
unfolding open_with_selected resolve
open_with_selected-InView lowercase items n s selected h =
    let all = length-indices_from lowercase 0 items in
    let placed : SelectState = record s {
      is_open = true;
      filter = record (s.filter) { text = []; cursor = 0 };
      focused_filtered_index = or_first (selected_item_index lowercase items selected);
      scroll_offset = 0;
    } in
    let (f, o, k) = clamp_to_lem placed (length items) in
    let (v, l) = ensure_focus_visible_lem (length items) n (clamp_to placed (length items)) f o h in
    rw all (v, l.open_same ∙ k.open_same)

-- With at least one row and fewer items and rows than the largest word, scrolling either way keeps the
-- focus on an item and in the window, and keeps the filter.
pub scrolls-InView :
    {ItemId : Type 0} (lowercase : Text → Text) (items : List (SelectItem ItemId)) (n : ℕ)
    (s : SelectState)
    → count_of lowercase items s + max n 1 ≤ u64_max
    → InView (count_of lowercase items s) n s
    → 1 ≤ n
    → (InView (count_of lowercase items s) n (scroll_up lowercase s items n)
        × Keeps s (scroll_up lowercase s items n))
      × (InView (count_of lowercase items s) n (scroll_down lowercase s items n)
          × Keeps s (scroll_down lowercase s items n))
scrolls-InView lowercase items n s small v rows = (
  scroll_up-InView lowercase items n s small v rows,
  scroll_down-InView lowercase items n s small v rows,
)
