-- ===== src/Swarm/RoleAssignment/Shares.antt =====
-- swarm/role_assignment.py: whom a redistribution gives a role, and how often it gives each.
use mathlib.Core.List.{append-nil, append_assoc}
use autonomous_rover_swarm_c.Common.{
  ℕ, ◌+◌, ◌-◌, ◌≤◌, ◌<◌, String, string_eq, true, false, List, [], ◌∷◌, ◌++◌, length, if◌then◌else◌,
  ◌==◌, ◌≡◌, refl, ap, sym, subst, ◌∙◌, arith, beq_refl, Option-cases, inl, inr,
}
use autonomous_rover_swarm_c.Common.Dict.{
  Dict, lookup, insert, keys, member-keys, lookup-insert, first_some,
}
use autonomous_rover_swarm_c.Common.Sets.{member, IsDistinct}
use autonomous_rover_swarm_c.Swarm.RoleAssignment.{
  Score, general_text, role_scores, chosen_role, assign_role, meet, Redistribution,
  redistribute_loop, redistribute,
}
use autonomous_rover_swarm_c.Swarm.RoleAssignment.Needs.{
  total, need, total-meet, keys-meet, chosen_role_wanted, role_scores-Needed, role_scores-empty,
  lookup-total, loop_meets, Needed,
}

-- The number of rovers that have the role.
abbrev pub count : String → Dict String String → ℕ
count role [] = 0
count role ((rover, given) ∷ d) = (if given == role then 1 else 0) + count role d

count-insert :
    (role rover given : String) (d : Dict String String)
    → member rover (keys d) ≡ false
    → count role (insert rover given d) ≡ (if given == role then 1 else 0) + count role d
unfolding insert keys member
count-insert role rover given [] new = refl
count-insert role rover given ((k, v) ∷ d) new = ground (
  arith,
  new,
  string_eq.beq_iff k rover,
  string_eq.beq_iff rover k,
  count-insert role rover given d,
)

keys-insert_new :
    (rover given : String) (d : Dict String String)
    → member rover (keys d) ≡ false
    → keys (insert rover given d) ≡ keys d ++ (rover ∷ [])
unfolding insert keys member
keys-insert_new rover given [] new = refl
keys-insert_new rover given ((k, v) ∷ d) new = ground (
  arith,
  new,
  string_eq.beq_iff k rover,
  string_eq.beq_iff rover k,
  keys-insert_new rover given d,
)

lookup-meet :
    (role x : String) (needs : Dict String ℕ)
    → need (lookup x (meet role needs))
      ≡ (if role == x then need (lookup x needs) - 1 else need (lookup x needs))
lookup-meet role x needs = elim (Option-cases (lookup role needs)) [
  | inl missing ↦ ground (arith, missing, string_eq.beq_iff role x)
  | inr (n, found) ↦
      ground (arith, found, string_eq.beq_iff role x, lookup-insert role x (n - 1) needs)
]

-- A positive need is part of the total.
need-total : (role : String) (needs : Dict String ℕ) → need (lookup role needs) ≤ total needs
need-total role needs = elim (Option-cases (lookup role needs)) [
  | inl missing ↦ rw missing (omega arith)
  | inr (n, found) ↦ rw found (lookup-total role n needs found)
]

chosen_role_idle :
    (needs : Dict String ℕ) (scores : List Score)
    → Needed needs scores
    → total needs ≡ 0
    → chosen_role scores ≡ general_text
chosen_role_idle needs [] h none_left = refl
chosen_role_idle needs (a ∷ scores) h none_left =
    absurd (ground (arith, h.0, none_left, need-total a.role needs))

-- The role that is chosen in a round where these are the unmet needs.
abbrev chosen : Dict String ℕ → String
chosen needs = chosen_role (role_scores [] needs)

-- The role given in a round takes one off its own need, where there is a need at all.
round_meets :
    (needs : Dict String ℕ) (x : String)
    → IsDistinct (keys needs)
    → ((general_text == x) ≡ true → 0 < total needs)
    → (if chosen needs == x then 1 else 0) + need (lookup x (meet (chosen needs) needs))
      ≡ need (lookup x needs)
round_meets needs x distinct wanted =
    let scores = role_scores [] needs in
    let fit = role_scores-Needed [] needs distinct in
    ground (
      arith,
      wanted,
      lookup-meet (chosen needs) x needs,
      string_eq.beq_iff (chosen needs) x,
      string_eq.beq_iff general_text x,
      chosen_role_idle needs scores fit,
      chosen_role_wanted needs scores fit (role_scores-empty [] needs),
    )

-- What is left of the needs after a round.
abbrev left_after : Dict String ℕ → Dict String ℕ
left_after needs = meet (chosen needs) needs

-- The state after a round that gives the rover its role.
abbrev after_round : String → Redistribution → Redistribution
after_round rover r = record {
  roles = insert rover (chosen r.unmet) r.roles;
  assignments = insert rover (chosen r.unmet) r.assignments;
  unmet = left_after r.unmet;
}

left_after-IsDistinct :
    (needs : Dict String ℕ) → IsDistinct (keys needs) → IsDistinct (keys (left_after needs))
left_after-IsDistinct needs distinct =
    subst IsDistinct (sym (keys-meet (chosen needs) needs)) distinct

total-left_after :
    (needs : Dict String ℕ) → IsDistinct (keys needs) → total (left_after needs) ≡ total needs - 1
total-left_after needs distinct = total-meet (chosen needs) needs (
    chosen_role_wanted needs (role_scores [] needs) (role_scores-Needed [] needs distinct)
      (role_scores-empty [] needs))

-- None of these rovers has an assignment.
abbrev Unassigned : List String → Dict String String → Type 0
Unassigned rovers d = (x : String) → member x rovers ≡ true → member x (keys d) ≡ false

Unassigned-tail :
    (rover given : String) (rovers : List String) (d : Dict String String)
    → member rover rovers ≡ false
    → Unassigned (rover ∷ rovers) d
    → Unassigned rovers (insert rover given d)
unfolding member
Unassigned-tail rover given rovers d once new x h = ground (
  arith,
  h,
  once,
  new x,
  string_eq.beq_iff x rover,
  string_eq.beq_iff rover x,
  member-keys x d,
  member-keys x (insert rover given d),
  lookup-insert rover x given d,
)

loop-keys :
    (rovers : List String) (r : Redistribution)
    → IsDistinct rovers
    → Unassigned rovers r.assignments
    → keys (redistribute_loop rovers r).assignments ≡ keys r.assignments ++ rovers
unfolding redistribute_loop assign_role member
loop-keys [] r once new = sym (append-nil (keys r.assignments))
loop-keys (rover ∷ rovers) r once new =
    let given = chosen r.unmet in
    let rest =
      loop-keys rovers (after_round rover r) once.1
        (Unassigned-tail rover given rovers r.assignments once.0 new) in
    let first =
      keys-insert_new rover given r.assignments (new rover (ground (arith, beq_refl rover))) in
    rest ∙ ap (λ ks. ks ++ rovers) first ∙ append_assoc (keys r.assignments) (rover ∷ []) rovers

loop-count :
    (rovers : List String) (r : Redistribution) (x : String)
    → IsDistinct rovers
    → Unassigned rovers r.assignments
    → IsDistinct (keys r.unmet)
    → ((general_text == x) ≡ true → length rovers ≤ total r.unmet)
    → let out = redistribute_loop rovers r in
      count x out.assignments + need (lookup x out.unmet)
      ≡ count x r.assignments + need (lookup x r.unmet)
unfolding redistribute_loop assign_role member
loop-count [] r x once new distinct few = refl
loop-count (rover ∷ rovers) r x once new distinct few =
    let given = chosen r.unmet in
    let fewer = total-left_after r.unmet distinct in
    let rest =
      loop-count rovers (after_round rover r) x once.1
        (Unassigned-tail rover given rovers r.assignments once.0 new)
        (left_after-IsDistinct r.unmet distinct) (λ general. omega (arith, few general, fewer)) in
    let first =
      count-insert x rover given r.assignments (new rover (ground (arith, beq_refl rover))) in
    let met = round_meets r.unmet x distinct (λ general. omega (arith, few general)) in
    omega (arith, rest, first, met)

loop-roles :
    (rovers : List String) (r : Redistribution) (roles : Dict String String)
    → ((k : String) → lookup k r.roles ≡ first_some (lookup k r.assignments) (lookup k roles))
    → (k : String)
    → let out = redistribute_loop rovers r in
      lookup k out.roles ≡ first_some (lookup k out.assignments) (lookup k roles)
unfolding redistribute_loop assign_role
loop-roles [] r roles same k = same k
loop-roles (rover ∷ rovers) r roles same k =
    let given = chosen r.unmet in
    loop-roles rovers (after_round rover r) roles
      (λ j. ground (
        arith,
        same j,
        lookup-insert rover j given r.roles,
        lookup-insert rover j given r.assignments,
      ))
      k

-- A redistribution among rovers that differ, of needs that name each role once, gives each of them a
-- role, in their order, and returns what it gives; the roles of all others stay. A role other than
-- "general" is given exactly as often as its need goes down, and so is "general", which also stands
-- for no need, where the rovers are not more than all needs together. All needs together go down by
-- one for each rover, until none is left.
pub redistribute_lem :
    (rovers : List String) (needs : Dict String ℕ) (roles : Dict String String)
    → IsDistinct rovers
    → IsDistinct (keys needs)
    → let out = redistribute rovers needs roles in
      (keys out.assignments ≡ rovers)
      × ((rover : String)
          → lookup rover out.roles ≡ first_some (lookup rover out.assignments) (lookup rover roles))
      × ((role : String)
          → ((general_text == role) ≡ true → length rovers ≤ total needs)
          → count role out.assignments + need (lookup role out.unmet) ≡ need (lookup role needs))
      × (total out.unmet ≡ total needs - length rovers)
unfolding redistribute keys lookup
redistribute_lem rovers needs roles once distinct =
    let start : Redistribution = record { roles = roles; assignments = []; unmet = needs } in
    (
      loop-keys rovers start once (unfold member in (λ x h. refl)),
      loop-roles rovers start roles (λ k. refl),
      λ role few.
          omega (
            arith,
            loop-count rovers start role once (unfold member in (λ x h. refl)) distinct few,
          ),
      loop_meets rovers start distinct,
    )
