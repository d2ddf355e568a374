-- ===== src/Input/Select.antt =====
-- A filtered list with a focus, src/select.rs. `str::to_lowercase` is a parameter, and so is the
-- equality of identifiers; `none` is a panic of the filter's text field.
pub mod Focus
pub mod Keys
use fluxcope.Common.{
  ℕ, zero, suc, ◌+◌, ◌-◌, Bool, true, false, ◌||◌, Option, none, some, List, [], ◌∷◌, min, max,
  sat_add, length, get_elem?, ltb, leb, ◌==◌, if◌then◌else◌,
}
use fluxcope.Common.Outcome.Panic.{◌>>=◌}
use fluxcope.Common.Text.{Text, is_empty, contains_text}
use fluxcope.Input.TextInput
use fluxcope.Input.TextInput.{
  Segmentation, TextInputState, InputEditOutcome, changed, unchanged, limit_reached, KeyCode, char,
  backspace, left, right, up, down, page_up, page_down, enter, esc, KeyEvent,
}

pub data SelectItemRole : Type 0 where
  value action : SelectItemRole

pub data SelectFilterMode : Type 0 where
  normal always_visible : SelectFilterMode

pub record SelectItem (ItemId : Type 0) : Type 0 where
  pub id : ItemId
  pub label : Text
  pub role : SelectItemRole
  pub filter_mode : SelectFilterMode

pub record SelectCommit (ItemId : Type 0) : Type 0 where
  pub id : ItemId
  pub role : SelectItemRole

pub data SelectOutcome (ItemId : Type 0) : Type 0 where
  nothing : SelectOutcome ItemId
  closed : SelectOutcome ItemId
  committed : SelectCommit ItemId → SelectOutcome ItemId

pub record SelectState : Type 0 where
  pub is_open : Bool
  pub filter : TextInputState
  pub focused_filtered_index : ℕ
  pub scroll_offset : ℕ

abbrev pub new : SelectState
new = record {
  is_open = false;
  filter = record { text = []; cursor = 0; max_bytes = none };
  focused_filtered_index = 0;
  scroll_offset = 0;
}

unfoldable pub close : SelectState → SelectState
close s = record s {
  is_open = false;
  filter = TextInput.clear s.filter;
  focused_filtered_index = 0;
  scroll_offset = 0;
}

abbrev pub reset_filter_position : SelectState → SelectState
reset_filter_position s = record s { focused_filtered_index = 0; scroll_offset = 0 }

unfoldable pub ensure_focus_visible : SelectState → ℕ → SelectState
ensure_focus_visible s max_visible_items =
    let visible = max max_visible_items 1 in
    if ltb s.focused_filtered_index s.scroll_offset
    then record s { scroll_offset = s.focused_filtered_index }
    else if leb (sat_add s.scroll_offset visible) s.focused_filtered_index
    then record s { scroll_offset = sat_add s.focused_filtered_index 1 - visible }
    else s

-- `clamp_focus`, at the number of filtered items
unfoldable pub clamp_to : SelectState → ℕ → SelectState
clamp_to s filtered_count =
    if filtered_count == 0
    then record s { focused_filtered_index = 0; scroll_offset = 0 }
    else record s {
      focused_filtered_index = min s.focused_filtered_index (filtered_count - 1);
      scroll_offset = min s.scroll_offset (filtered_count - 1);
    }

abbrev pub is_always : SelectFilterMode → Bool
is_always always_visible = true
is_always normal = false

abbrev pub or_first : Option ℕ → ℕ
or_first none = 0
or_first (some i) = i

abbrev pub edited : SelectState → TextInputState × InputEditOutcome → SelectState
edited s (filter, changed) = reset_filter_position (record s { filter = filter })
edited s (filter, unchanged) = record s { filter = filter }
edited s (filter, limit_reached) = record s { filter = filter }

module _ {ItemId : Type 0} (lowercase : Text → Text) where
  -- whether a filter that is not empty keeps an item
  unfoldable pub keeps : Text → SelectItem ItemId → Bool
  keeps filter item =
      is_always item.filter_mode || contains_text (lowercase filter) (lowercase item.label)

  -- the indices of the items that are kept, from an index
  unfoldable pub indices_from : ℕ → (SelectItem ItemId → Bool) → List (SelectItem ItemId) → List ℕ
  indices_from i shown [] = []
  indices_from i shown (item ∷ items) =
      let rest = indices_from (i + 1) shown items in if shown item then i ∷ rest else rest

  abbrev pub shows : Text → SelectItem ItemId → Bool
  shows filter item = is_empty filter || keeps filter item

  unfoldable pub resolve : Text → List (SelectItem ItemId) → List ℕ
  resolve filter items =
      if is_empty filter
      then indices_from 0 (λ _. true) items
      else indices_from 0 (keeps filter) items

  abbrev pub resolve_items : SelectState → List (SelectItem ItemId) → List ℕ
  resolve_items s items = resolve s.filter.text items

  unfoldable pub focused_item_index : SelectState → List (SelectItem ItemId) → Option ℕ
  focused_item_index s items = get_elem? (resolve_items s items) s.focused_filtered_index

  unfoldable pub commit_item : List (SelectItem ItemId) → ℕ → Option (SelectCommit ItemId)
  commit_item items item_index = do
    item ← get_elem? items item_index
    some (record { id = item.id; role = item.role })

  unfoldable pub commit_focused :
      SelectState → List (SelectItem ItemId) → Option (SelectCommit ItemId)
  commit_focused s items = do item_index ← focused_item_index s items; commit_item items item_index

  unfoldable pub commit_filtered_index :
      SelectState → List (SelectItem ItemId) → ℕ → Option (SelectCommit ItemId)
  commit_filtered_index s items filtered_index = do
    item_index ← get_elem? (resolve_items s items) filtered_index
    commit_item items item_index

  abbrev pub clamp_focus : SelectState → List (SelectItem ItemId) → SelectState
  clamp_focus s items = clamp_to s (length (resolve_items s items))

  unfoldable pub move_to : SelectState → List (SelectItem ItemId) → ℕ → ℕ → SelectState
  unfolding clamp_to ensure_focus_visible
  move_to s items max_visible_items focused =
      ensure_focus_visible (clamp_focus (record s { focused_filtered_index = focused }) items)
        max_visible_items

  abbrev pub move_previous : SelectState → List (SelectItem ItemId) → ℕ → SelectState
  move_previous s items max_visible_items =
      move_to s items max_visible_items (s.focused_filtered_index - 1)

  abbrev pub move_next : SelectState → List (SelectItem ItemId) → ℕ → SelectState
  move_next s items max_visible_items =
      move_to s items max_visible_items (sat_add s.focused_filtered_index 1)

  abbrev pub move_page_up : SelectState → List (SelectItem ItemId) → ℕ → SelectState
  move_page_up s items max_visible_items =
      move_to s items max_visible_items (s.focused_filtered_index - max max_visible_items 1)

  abbrev pub move_page_down : SelectState → List (SelectItem ItemId) → ℕ → SelectState
  move_page_down s items max_visible_items =
      move_to s items max_visible_items (sat_add s.focused_filtered_index (max max_visible_items 1))

  unfoldable pub scroll_up : SelectState → List (SelectItem ItemId) → ℕ → SelectState
  unfolding clamp_to
  scroll_up s items max_visible_items =
      let offset = s.scroll_offset - 1 in
      let focused =
        if leb (sat_add offset max_visible_items) s.focused_filtered_index
        then sat_add offset max_visible_items - 1
        else s.focused_filtered_index in
      clamp_focus (record s { scroll_offset = offset; focused_filtered_index = focused }) items

  unfoldable pub scroll_down : SelectState → List (SelectItem ItemId) → ℕ → SelectState
  unfolding clamp_to
  scroll_down s items max_visible_items =
      let max_scroll = length (resolve_items s items) - max_visible_items in
      let offset = min (sat_add s.scroll_offset 1) max_scroll in
      let focused = max s.focused_filtered_index offset in
      clamp_focus (record s { scroll_offset = offset; focused_filtered_index = focused }) items

  -- `position`, from an index
  unfoldable pub position_from : (ItemId → Bool) → ℕ → List (SelectItem ItemId) → Option ℕ
  position_from same i [] = none
  position_from same i (item ∷ items) =
      let rest = position_from same (i + 1) items in if same item.id then some i else rest

  abbrev pub selected_item_index : List (SelectItem ItemId) → Option (ItemId → Bool) → Option ℕ
  selected_item_index items none = none
  selected_item_index items (some same) = position_from same 0 items

  -- `selected` is the test of being equal to the selected identifier, if there is one
  unfoldable pub open_with_selected :
      SelectState → List (SelectItem ItemId) → Option (ItemId → Bool) → ℕ → SelectState
  unfolding clamp_to ensure_focus_visible
  open_with_selected s items selected max_visible_items =
      ensure_focus_visible
        (clamp_focus
          (record s {
            is_open = true;
            filter = TextInput.clear s.filter;
            focused_filtered_index = or_first (selected_item_index items selected);
            scroll_offset = 0;
          })
          items)
        max_visible_items

  abbrev pub outcome_of : Option (SelectCommit ItemId) → SelectOutcome ItemId
  outcome_of none = nothing
  outcome_of (some commit) = committed commit

  module _ (segmentation : Segmentation) where
    abbrev pub edit_filter : SelectState → KeyEvent → Option (SelectState × SelectOutcome ItemId)
    edit_filter s key = do
      after ← TextInput.handle_key segmentation s.filter key
      some (edited s after, nothing)

    unfoldable pub handle_code :
        SelectState
        → KeyEvent
        → List (SelectItem ItemId)
        → ℕ
        → KeyCode
        → Option (SelectState × SelectOutcome ItemId)
    unfolding close
    handle_code s key items n esc = some (close s, closed)
    handle_code s key items n enter = some (s, outcome_of (commit_focused s items))
    handle_code s key items n up = some (move_previous s items n, nothing)
    handle_code s key items n down = some (move_next s items n, nothing)
    handle_code s key items n page_up = some (move_page_up s items n, nothing)
    handle_code s key items n page_down = some (move_page_down s items n, nothing)
    handle_code s key items n backspace = edit_filter s key
    handle_code s key items n left = edit_filter s key
    handle_code s key items n right = edit_filter s key
    handle_code s key items n (char c) = edit_filter s key
    handle_code s key items n _ = some (s, nothing)

    unfoldable pub handle_key :
        SelectState
        → KeyEvent
        → List (SelectItem ItemId)
        → ℕ
        → Option (SelectState × SelectOutcome ItemId)
    unfolding handle_code
    handle_key s key items max_visible_items =
        if s.is_open then handle_code s key items max_visible_items key.code else some (s, nothing)

abbrev pub pasted : SelectState → TextInputState × InputEditOutcome → SelectState × Bool
pasted s (filter, changed) = (reset_filter_position (record s { filter = filter }), true)
pasted s (filter, unchanged) = (record s { filter = filter }, false)
pasted s (filter, limit_reached) = (record s { filter = filter }, false)

unfoldable pub handle_paste : Segmentation → SelectState → Text → Option (SelectState × Bool)
handle_paste segmentation s text =
    if s.is_open
    then (do after ← TextInput.paste segmentation s.filter text; some (pasted s after))
    else some (s, false)
