-- ===== src/Crdt/VectorClock/Causality.antt =====
-- `happens_before` and `concurrent` of crdt/vector_clock.py.
use autonomous_rover_swarm_c.Common.{
  ◌≤◌, ◌<◌, String, Bool, true, false, ◌≡◌, ◌⊎◌, ◌↔◌, inl, inr, refl, List, [], ◌∷◌, arith, ltb,
  if◌then◌else◌, string_eq, Bool-cases,
}
use autonomous_rover_swarm_c.Common.Dict.{keys, member-keys}
use autonomous_rover_swarm_c.Common.Sets.{member, union, member-union}
use autonomous_rover_swarm_c.Crdt.VectorClock.{
  VectorClock, get, count_of, before_loop, happens_before, concurrent,
}

-- No count of `a` is above that of `b`, and one is below.
abbrev pub Precedes : VectorClock → VectorClock → Type 0
Precedes a b =
    ((node : String) → get a node ≤ get b node) × ((node : String) × (get a node < get b node))

module _ (a b : VectorClock) where
  nodes : List String
  nodes = union (keys a.clocks) (keys b.clocks)

  -- A node outside the union counts 0 in both clocks.
  get_outside : (node : String) → member node nodes ≡ false → (get a node ≡ 0) × (get b node ≡ 0)
  unfolding nodes get count_of
  get_outside node h = ground (
    arith,
    member-union (keys a.clocks) (keys b.clocks) node,
    member-keys node a.clocks,
    member-keys node b.clocks,
  )

  loop_le :
      (ns : List String) (flag : Bool) (node : String)
      → before_loop a b ns flag ≡ true
      → member node ns ≡ true
      → get a node ≤ get b node
  unfolding before_loop member
  loop_le [] flag node h m = cc
  loop_le (n ∷ ns) flag node h m = ground (
    arith,
    string_eq.beq_iff node n,
    loop_le ns (if ltb (get a n) (get b n) then true else flag) node,
  )

  loop_less :
      (ns : List String) (flag : Bool)
      → before_loop a b ns flag ≡ true
      → (flag ≡ true) ⊎ ((node : String) × (get a node < get b node))
  unfolding before_loop
  loop_less [] flag h = inl h
  loop_less (n ∷ ns) flag h = elim (Bool-cases (ltb (get a n) (get b n))) [
    | inl less ↦ inr (n, ground arith)
    | inr not_less ↦ loop_less ns flag (ground arith)
  ]

  loop_true :
      (ns : List String)
      → ((node : String) → get a node ≤ get b node)
      → before_loop a b ns true ≡ true
  unfolding before_loop
  loop_true [] le = refl
  loop_true (n ∷ ns) le = ground (arith, le n, loop_true ns le)

  loop_finds :
      (ns : List String) (flag : Bool) (node : String)
      → ((node : String) → get a node ≤ get b node)
      → member node ns ≡ true
      → get a node < get b node
      → before_loop a b ns flag ≡ true
  unfolding before_loop member
  loop_finds [] flag node le m lt = cc
  loop_finds (n ∷ ns) flag node le m lt = ground (
    arith,
    le n,
    string_eq.beq_iff node n,
    loop_true ns le,
    loop_finds ns (if ltb (get a n) (get b n) then true else flag) node le,
  )

  -- `happens_before` answers true exactly when no count of the first clock is above that of the
  -- second and some count is below.
  pub happens_before_iff : (happens_before a b ≡ true) ↔ Precedes a b
  unfolding happens_before nodes
  happens_before_iff = (
    λ h. (
      λ node. elim (Bool-cases (member node nodes)) [
        | inl inside ↦ loop_le nodes false node h inside
        | inr outside ↦ omega (arith, get_outside node outside)
      ],
      elim (loop_less nodes false h) [ inl f ↦ cc | inr p ↦ p ],
    ),
    λ p. elim (Bool-cases (member p.1.0 nodes)) [
      | inl inside ↦ loop_finds nodes false p.1.0 p.0 inside p.1.1
      | inr outside ↦ absurd (omega (arith, get_outside p.1.0 outside, p.1.1))
    ],
  )

-- `happens_before` is irreflexive, transitive and asymmetric. `concurrent` answers the same whichever
-- clock is asked, and of two clocks that are not concurrent one happens before the other.
pub happens_before_order :
    (a b c : VectorClock)
    → (happens_before a a ≡ false)
      × (happens_before a b ≡ true → happens_before b c ≡ true → happens_before a c ≡ true)
      × (happens_before a b ≡ true → happens_before b a ≡ false)
      × (concurrent a b ≡ concurrent b a)
      × ((concurrent a b ≡ false) → (happens_before a b ≡ true) ⊎ (happens_before b a ≡ true))
unfolding concurrent
happens_before_order a b c = (
  elim (Bool-cases (happens_before a a)) [
    | inl h ↦ let p = (happens_before_iff a a).0 h in absurd (omega (arith, p.1.1))
    | inr h ↦ h
  ],
  λ h k.
      let p = (happens_before_iff a b).0 h in
      let q = (happens_before_iff b c).0 k in
      (happens_before_iff a c).1
        (λ node. omega (arith, p.0 node, q.0 node), (p.1.0, omega (arith, p.1.1, q.0 p.1.0))),
  λ h. elim (Bool-cases (happens_before b a)) [
    | inl k ↦
        let p = (happens_before_iff a b).0 h in
        let q = (happens_before_iff b a).0 k in absurd (omega (arith, p.1.1, q.0 p.1.0))
    | inr k ↦ k
  ],
  ground arith,
  λ h. ground arith,
)
