-- ===== src/Capture/Budget/Reserve.antt =====
-- `reserve_body_prefix`, src/capture/model.rs, in one step: the best prefix, and what it costs.
use fluxcope.Common.{
  ℕ, ◌+◌, ◌-◌, ◌/◌, ◌≤◌, ◌<◌, ◌≡◌, refl, [], inl, inr, arith, u64_max, Bool-cases, ◌==◌, ==_iff,
}
use fluxcope.Capture.Budget.{
  MemoryBudget, body_chunk_bytes, body_prefix_charge, reserve_body_prefix,
}
use fluxcope.Capture.Budget.Charge.{IsBest, body_prefix_charge-IsBest}

module _ (node_overhead requested trailing_len available : ℕ)
    (partial : trailing_len < body_chunk_bytes) where
  nothing_asked : requested ≡ 0 → IsBest node_overhead requested trailing_len available 0 0
  nothing_asked e = record {
    asked = omega arith;
    charged_is =
        let z : (trailing_len + 0) / body_chunk_bytes ≡ 0 = omega arith in rw z (omega arith);
    affordable = omega arith;
    longest = λ r a p. omega arith;
  }

  nothing_fits :
      {retained charged : ℕ}
      → retained ≡ 0
      → IsBest node_overhead requested trailing_len available retained charged
      → IsBest node_overhead requested trailing_len available 0 0
  nothing_fits e b = record {
    asked = omega arith;
    charged_is =
        let z : (trailing_len + 0) / body_chunk_bytes ≡ 0 = omega arith in rw z (omega arith);
    affordable = omega arith;
    longest = λ r a p. rw (← e) (b.longest r a p);
  }

module _ (node_overhead : ℕ) where
  -- The step's result is the best prefix for what the limit leaves, and the used bytes grow by its
  -- charge and stay within the limit.
  pub record Reserves (budget : MemoryBudget) (requested trailing_len retained charged : ℕ)
      (after : MemoryBudget) : Type 0 where
    pub best :
        IsBest node_overhead requested trailing_len (budget.limit - budget.used) retained charged
    pub limit_is : after.limit ≡ budget.limit
    pub used_is : after.used ≡ budget.used + charged
    pub bounded : after.used ≤ after.limit

  -- With the used bytes within a limit below the largest word, less than a chunk pending and sizes that
  -- do not saturate, one undisturbed reservation for a body takes the longest prefix of the bytes asked
  -- for that the unused bytes pay, charges exactly its cost, and keeps the used bytes within the limit.
  pub reserve_body_prefix-Reserves :
      (budget : MemoryBudget) (requested trailing_len : ℕ)
      → budget.used ≤ budget.limit
      → budget.limit < u64_max
      → trailing_len < body_chunk_bytes
      → trailing_len + requested + body_chunk_bytes ≤ u64_max
      → let r = reserve_body_prefix node_overhead budget requested trailing_len [] in
        Reserves budget requested trailing_len r.0.0 r.0.1 r.1
  unfolding reserve_body_prefix
  reserve_body_prefix-Reserves budget requested trailing_len used small partial fits =
      elim (Bool-cases (requested == 0)) [
        | inl zero ↦ rw zero (record {
          best =
              nothing_asked node_overhead requested trailing_len (budget.limit - budget.used)
                partial ((==_iff _ _).0 zero);
          limit_is = refl;
          used_is = omega arith;
          bounded = used;
        })
        | inr more ↦ elim (Bool-cases (best_charge.0 == 0)) [
          | inl none_fits ↦
              rw (more, none_fits)
                (record {
                  best =
                      nothing_fits node_overhead requested trailing_len (budget.limit - budget.used)
                        partial ((==_iff _ _).0 none_fits) best;
                  limit_is = refl;
                  used_is = omega arith;
                  bounded = used;
                })
          | inr some_fit ↦
              rw (more, some_fit)
                (record {
                  best = best;
                  limit_is = refl;
                  used_is = omega (arith, best.affordable);
                  bounded = omega (arith, best.affordable);
                })
        ]
      ]
    where
      best_charge : ℕ × ℕ
      best_charge =
          body_prefix_charge node_overhead requested trailing_len (budget.limit - budget.used)

      best :
          IsBest node_overhead requested trailing_len
            (budget.limit - budget.used)
            best_charge.0
            best_charge.1
      best =
          body_prefix_charge-IsBest node_overhead requested trailing_len
            (budget.limit - budget.used) partial (omega arith) fits
