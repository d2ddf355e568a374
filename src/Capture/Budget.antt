-- ===== src/Capture/Budget.antt =====
-- The memory budget that all captures share, `CaptureMemoryBudget` and `CaptureBudgetLease` of
-- src/capture/model.rs. A compare-exchange loop is read over the values that its failed exchanges
-- report, which other threads have written in between; with none of them it is one atomic step.
pub mod Charge
pub mod Linear
pub mod Reserve
use fluxcope.Common.{
  ℕ, zero, suc, ◌+◌, ◌-◌, ◌*◌, ◌/◌, Bool, true, false, Option, none, some, List, [], ◌∷◌, u64_max,
  wrap, wrap_sub, sat_add, sat_mul, ltb, leb, ◌==◌, if◌then◌else◌, min,
}

pub record MemoryBudget : Type 0 where
  pub limit : ℕ
  pub used : ℕ

abbrev pub new : ℕ → MemoryBudget
new limit = record { limit = limit; used = 0 }

-- One round of a loop at the value `used`: it gives up, or it proposes a new value with a result.
abbrev pub Attempt : Type 0 → Type 0
Attempt A = ℕ → Option (ℕ × A)

-- `loop { .. compare_exchange_weak(used, updated) .. }`: the value at which it ended, and what was
-- stored there, if anything
abbrev pub cas_loop : {A : Type 0} → Attempt A → ℕ → List ℕ → ℕ × Option (ℕ × A)
cas_loop attempt used [] = (used, attempt used)
cas_loop attempt used (current ∷ later) = elim (attempt used) [
  | none ↦ (used, none)
  | some _ ↦ cas_loop attempt current later
]

-- the budget and the result after a loop
abbrev pub settle : {A : Type 0} → MemoryBudget → A → ℕ × Option (ℕ × A) → A × MemoryBudget
settle budget failed (used, none) = (failed, record budget { used = used })
settle budget failed (_, some (updated, a)) = (a, record budget { used = updated })

exact_attempt : ℕ → ℕ → Attempt Bool
exact_attempt limit requested used =
    if ltb u64_max (used + requested)
    then none
    else if ltb limit (used + requested)
    then none
    else some (used + requested, true)

unfoldable pub reserve_exact : MemoryBudget → ℕ → List ℕ → Bool × MemoryBudget
unfolding exact_attempt
reserve_exact budget requested observed =
    if requested == 0
    then (true, budget)
    else settle budget false (cas_loop (exact_attempt budget.limit requested) budget.used observed)

up_to_attempt : ℕ → ℕ → Attempt ℕ
up_to_attempt limit requested used =
    let reserved = min requested (limit - used) in
    if reserved == 0 then none else some (sat_add used reserved, reserved)

unfoldable pub reserve_up_to : MemoryBudget → ℕ → List ℕ → ℕ × MemoryBudget
unfolding up_to_attempt
reserve_up_to budget requested observed =
    settle budget 0 (cas_loop (up_to_attempt budget.limit requested) budget.used observed)

abbrev pub release : MemoryBudget → ℕ → MemoryBudget
release budget released = record budget { used = wrap_sub budget.used released }

-- `BODY_CHUNK_BYTES`
abbrev pub body_chunk_bytes : ℕ
body_chunk_bytes = 65536

-- `body_prefix_charge`, at `BODY_CHUNK_NODE_OVERHEAD`, a size that the compiler's layout decides.
module _ (node_overhead : ℕ) where
  -- one round of the loop, at `nodes`; `none` goes on to the next
  unfoldable pub charge_at : ℕ → ℕ → ℕ → ℕ → Option (ℕ × ℕ)
  charge_at requested trailing_len available nodes =
      let overhead = sat_mul nodes node_overhead in
      let lower = sat_mul nodes body_chunk_bytes - trailing_len in
      let upper = sat_mul (sat_add nodes 1) body_chunk_bytes - trailing_len - 1 in
      let retained = min (min requested (available - overhead)) upper in
      if ltb available overhead
      then none
      else if leb lower retained
      then some (retained, sat_add retained overhead)
      else none

  -- `for nodes in (0..=max_nodes).rev()`
  unfoldable pub charge_from : ℕ → ℕ → ℕ → ℕ → ℕ × ℕ
  charge_from requested trailing_len available zero =
      elim (charge_at requested trailing_len available zero) [ none ↦ (0, 0) | some r ↦ r ]
  charge_from requested trailing_len available (suc nodes) =
      elim (charge_at requested trailing_len available (suc nodes)) [
        | none ↦ charge_from requested trailing_len available nodes
        | some r ↦ r
      ]

  unfoldable pub body_prefix_charge : ℕ → ℕ → ℕ → ℕ × ℕ
  body_prefix_charge requested trailing_len available =
      let max_bytes = min requested available in
      charge_from requested trailing_len available
        (sat_add trailing_len max_bytes / body_chunk_bytes)

  prefix_attempt : ℕ → ℕ → ℕ → Attempt (ℕ × ℕ)
  prefix_attempt limit requested trailing_len used =
      let (retained, charged) = body_prefix_charge requested trailing_len (limit - used) in
      if retained == 0 then none else some (sat_add used charged, (retained, charged))

  unfoldable pub reserve_body_prefix : MemoryBudget → ℕ → ℕ → List ℕ → (ℕ × ℕ) × MemoryBudget
  unfolding prefix_attempt
  reserve_body_prefix budget requested trailing_len observed =
      if requested == 0
      then ((0, 0), budget)
      else settle budget (0, 0)
          (cas_loop (prefix_attempt budget.limit requested trailing_len) budget.used observed)
