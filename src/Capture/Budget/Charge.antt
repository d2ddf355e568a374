-- ===== src/Capture/Budget/Charge.antt =====
-- `body_prefix_charge`, src/capture/model.rs: the longest prefix that the budget can pay for.
use fluxcope.Common.{
  ℕ, zero, suc, ◌+◌, ◌*◌, ◌/◌, ◌≤◌, ◌<◌, ◌≡◌, none, some, inl, inr, arith, u64_max, min,
  Option-cases, sat_add,
}
use native.Mathlib.Decide.{dec_lt}
use fluxcope.Capture.Budget.{body_chunk_bytes, charge_at, charge_from, body_prefix_charge}

-- the chunks that `retained` more bytes complete, and what the bytes and their nodes cost
abbrev pub nodes_after : ℕ → ℕ → ℕ
nodes_after trailing_len retained = (trailing_len + retained) / body_chunk_bytes

module _ (node_overhead : ℕ) where
  abbrev pub cost : ℕ → ℕ → ℕ
  cost trailing_len retained = retained + nodes_after trailing_len retained * node_overhead

module _ (node_overhead requested trailing_len available : ℕ) where
  -- A prefix that is asked for, paid for, and as long as any such.
  pub record IsBest (retained charged : ℕ) : Type 0 where
    pub asked : retained ≤ requested
    pub charged_is : charged ≡ cost node_overhead trailing_len retained
    pub affordable : charged ≤ available
    pub longest :
        (r : ℕ) → r ≤ requested → cost node_overhead trailing_len r ≤ available → r ≤ retained

  -- no prefix in the class of `nodes` completed chunks can be paid for
  abbrev NoneAt : ℕ → Type 0
  NoneAt nodes =
      (r : ℕ)
      → nodes_after trailing_len r ≡ nodes
      → r ≤ requested
      → r + nodes * node_overhead ≤ available
      → ⊥

  module _ (partial : trailing_len < body_chunk_bytes) (small : available < u64_max) (nodes : ℕ)
      (fits : (nodes + 1) * body_chunk_bytes ≤ u64_max) where
    charge_at-none :
        charge_at node_overhead requested trailing_len available nodes ≡ none → NoneAt nodes
    unfolding charge_at
    charge_at-none e r k asked paid = ground arith

    charge_at-some :
        {r c : ℕ}
        → charge_at node_overhead requested trailing_len available nodes ≡ some (r, c)
        → (nodes_after trailing_len r ≡ nodes)
          × (r ≤ requested)
          × (c ≡ r + nodes * node_overhead)
          × (c ≤ available)
    unfolding charge_at
    charge_at-some e = ground arith

    charge_at_longest :
        {r c : ℕ} (s : ℕ)
        → charge_at node_overhead requested trailing_len available nodes ≡ some (r, c)
        → nodes_after trailing_len s ≡ nodes
        → s ≤ requested
        → s + nodes * node_overhead ≤ available
        → s ≤ r
    unfolding charge_at
    charge_at_longest s e k asked paid = ground arith

    charge_at-IsBest :
        {r c : ℕ}
        → ((s : ℕ)
            → s ≤ requested
            → cost node_overhead trailing_len s ≤ available
            → nodes_after trailing_len s ≤ nodes)
        → charge_at node_overhead requested trailing_len available nodes ≡ some (r, c)
        → IsBest r c
    charge_at-IsBest {r} {c} above e =
        let (k, asked, c_is, paid) = charge_at-some e in
        record {
          asked = asked;
          charged_is = rw k c_is;
          affordable = paid;
          longest = λ s a p. elim (dec_lt (nodes_after trailing_len s) nodes) [
            | yes lower ↦ omega arith
            | no same ↦
                let here : nodes_after trailing_len s ≡ nodes = omega (arith, above s a p) in
                charge_at_longest s e here a (rw here at p)
          ];
        }

  module _ (partial : trailing_len < body_chunk_bytes) (small : available < u64_max) where
    charge_from-IsBest :
        (nodes : ℕ)
        → (nodes + 1) * body_chunk_bytes ≤ u64_max
        → ((s : ℕ)
            → s ≤ requested
            → cost node_overhead trailing_len s ≤ available
            → nodes_after trailing_len s ≤ nodes)
        → IsBest
            (charge_from node_overhead requested trailing_len available nodes).0
            (charge_from node_overhead requested trailing_len available nodes).1
    unfolding charge_from
    charge_from-IsBest zero fits above =
        elim (Option-cases (charge_at node_overhead requested trailing_len available zero)) [
          | inl e ↦
              absurd (
                charge_at-none partial small zero fits e 0 (omega arith) (omega arith)
                  (omega arith))
          | inr ((r, c), e) ↦ rw (e, charge_from) (charge_at-IsBest partial small zero fits above e)
        ]
    charge_from-IsBest (suc nodes) fits above =
        elim (Option-cases (charge_at node_overhead requested trailing_len available (suc nodes))) [
          | inl e ↦
              rw (e, charge_from)
                (charge_from-IsBest nodes (omega arith) (λ s a p.
                  elim (dec_lt nodes (nodes_after trailing_len s)) [
                    | yes higher ↦
                        let here : nodes_after trailing_len s ≡ suc nodes =
                          omega (arith, above s a p) in
                        absurd
                          (charge_at-none partial small (suc nodes) fits e s here a (rw here at p))
                    | no lower ↦ omega (arith, lower)
                  ]))
          | inr ((r, c), e) ↦
              rw (e, charge_from) (charge_at-IsBest partial small (suc nodes) fits above e)
        ]

    -- With less than a chunk pending, and sizes that do not saturate, `body_prefix_charge` takes the
    -- longest prefix of the bytes asked for whose bytes and completed chunk nodes the available
    -- budget pays, and charges exactly that cost.
    pub body_prefix_charge-IsBest :
        trailing_len + requested + body_chunk_bytes ≤ u64_max
        → IsBest
            (body_prefix_charge node_overhead requested trailing_len available).0
            (body_prefix_charge node_overhead requested trailing_len available).1
    unfolding body_prefix_charge
    body_prefix_charge-IsBest fits =
        charge_from-IsBest (sat_add trailing_len (min requested available) / body_chunk_bytes)
          (omega arith) (λ s a p. omega arith)
