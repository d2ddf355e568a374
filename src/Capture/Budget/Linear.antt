-- ===== src/Capture/Budget/Linear.antt =====
-- The compare-exchange loops of src/capture/model.rs act at one instant: a loop through any
-- interference does what one atomic step does at a value that the budget had on the way.
use fluxcope.Common.{
  ℕ, ◌+◌, ◌≤◌, ◌≡◌, refl, ap, ◌∙◌, ◌⊎◌, false, Option, none, some, List, [], ◌∷◌, inl, inr, arith,
  u64_max, Option-cases, Bool-cases, ◌==◌, if◌then◌else◌,
}
use fluxcope.Capture.Budget.{
  MemoryBudget, Attempt, cas_loop, settle, exact_attempt, up_to_attempt, prefix_attempt,
  reserve_exact, reserve_up_to, reserve_body_prefix,
}

-- `v` is the value first loaded or one reported by a failed exchange
abbrev pub Seen : ℕ → ℕ → List ℕ → Type 0
Seen v used [] = v ≡ used
Seen v used (c ∷ cs) = (v ≡ used) ⊎ Seen v c cs

-- the value at the last exchange, if none gave up before it
abbrev pub last_seen : ℕ → List ℕ → ℕ
last_seen used [] = used
last_seen used (c ∷ cs) = last_seen c cs

cas_loop_linear :
    {A : Type 0} (attempt : Attempt A) (used : ℕ) (observed : List ℕ)
    → (v : ℕ) × Seen v used observed
      × (cas_loop attempt used observed ≡ cas_loop attempt v [])
      × ((v ≡ last_seen used observed) ⊎ (attempt v ≡ none))
cas_loop_linear attempt used [] = (used, refl, refl, inl refl)
cas_loop_linear attempt used (c ∷ cs) = elim (Option-cases (attempt used)) [
  | inl e ↦ (used, inl refl, ground arith, inr e)
  | inr (r, e) ↦
      let (v, seen, same, ended) = cas_loop_linear attempt c cs in
      (v, inr seen, ground (arith, same), ended)
]

abbrev pub at : MemoryBudget → ℕ → MemoryBudget
at budget v = record budget { used = v }

Seen-first : (used : ℕ) (observed : List ℕ) → Seen used used observed
Seen-first used [] = refl
Seen-first used (c ∷ cs) = inl refl

settle-at :
    {A : Type 0} (budget : MemoryBudget) (failed : A) (v : ℕ) (r : Option (ℕ × A))
    → settle budget failed (v, r) ≡ settle (at budget v) failed (v, r)
settle-at budget failed v none = refl
settle-at budget failed v (some (u, a)) = refl

-- Reserving exactly through any interference is reserving in one step, from a value seen on the way.
pub reserve_exact-linear :
    (budget : MemoryBudget) (requested : ℕ) (observed : List ℕ)
    → (v : ℕ) × Seen v budget.used observed
      × (reserve_exact budget requested observed ≡ reserve_exact (at budget v) requested [])
unfolding reserve_exact
reserve_exact-linear budget requested observed = elim (Bool-cases (requested == 0)) [
  | inl zero ↦ (budget.used, Seen-first budget.used observed, rw zero)
  | inr more ↦
      let (v, seen, same, _) =
        cas_loop_linear (exact_attempt budget.limit requested) budget.used observed in
      (
        v,
        seen,
        rw more (
            ap (settle budget false) same
            ∙ settle-at budget false v (exact_attempt budget.limit requested v)),
      )
]

-- So is reserving as much as there is.
pub reserve_up_to-linear :
    (budget : MemoryBudget) (requested : ℕ) (observed : List ℕ)
    → (v : ℕ) × Seen v budget.used observed
      × (reserve_up_to budget requested observed ≡ reserve_up_to (at budget v) requested [])
unfolding reserve_up_to
reserve_up_to-linear budget requested observed =
    let (v, seen, same, _) =
      cas_loop_linear (up_to_attempt budget.limit requested) budget.used observed in
    (
      v,
      seen,
      ap (settle budget 0) same ∙ settle-at budget 0 v (up_to_attempt budget.limit requested v),
    )

-- Reserving for a body through any interference gives the result and the budget of one step, with no
-- interference, from a value of the used bytes that was loaded first or seen on the way. This is the
-- last value seen, at which the exchange was made, unless nothing is reserved.
pub reserve_body_prefix-linear :
    (node_overhead : ℕ) (budget : MemoryBudget) (requested trailing_len : ℕ) (observed : List ℕ)
    → (v : ℕ) × Seen v budget.used observed
      × (reserve_body_prefix node_overhead budget requested trailing_len observed
          ≡ reserve_body_prefix node_overhead (at budget v) requested trailing_len [])
      × ((v ≡ last_seen budget.used observed)
          ⊎ ((reserve_body_prefix node_overhead budget requested trailing_len observed).0 ≡ (0, 0)))
unfolding reserve_body_prefix
reserve_body_prefix-linear node_overhead budget requested trailing_len observed =
    elim (Bool-cases (requested == 0)) [
      | inl zero ↦ (budget.used, Seen-first budget.used observed, rw zero, inr (rw zero refl))
      | inr more ↦
          let attempt = prefix_attempt node_overhead budget.limit requested trailing_len in
          let (v, seen, same, ended) = cas_loop_linear attempt budget.used observed in
          (
            v,
            seen,
            rw more (ap (settle budget (0, 0)) same ∙ settle-at budget (0, 0) v (attempt v)),
            elim ended [
              | inl last ↦ inl last
              | inr gave_up ↦
                  inr (
                    rw more
                      (ap (λ r. (settle budget (0, 0) r).0) (same ∙ ap (λ o. (v, o)) gave_up)))
            ],
          )
    ]

-- A step keeps the used bytes within the limit, and a result is what the used bytes grew by.
pub reserve_exact_bounded :
    (budget : MemoryBudget) (requested : ℕ)
    → budget.used ≤ budget.limit
    → let (granted, after) = reserve_exact budget requested [] in
      (after.used ≤ budget.limit) × (after.used ≡ budget.used + (if granted then requested else 0))
unfolding reserve_exact
reserve_exact_bounded budget requested h = ground arith

pub reserve_up_to_bounded :
    (budget : MemoryBudget) (requested : ℕ)
    → budget.used ≤ budget.limit
    → budget.limit ≤ u64_max
    → let (reserved, after) = reserve_up_to budget requested [] in
      (reserved ≤ requested) × (after.used ≤ budget.limit) × (after.used ≡ budget.used + reserved)
unfolding reserve_up_to
reserve_up_to_bounded budget requested h k = ground arith
