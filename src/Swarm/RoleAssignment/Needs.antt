-- ===== src/Swarm/RoleAssignment/Needs.antt =====
-- swarm/role_assignment.py: what a redistribution leaves of the needs.
use autonomous_rover_swarm_c.Common.{
  ℕ, zero, suc, ◌+◌, ◌-◌, ◌≤◌, ◌<◌, String, string_eq, Bool, true, false, Option, none, some, List,
  [], ◌∷◌, length, if◌then◌else◌, ◌≡◌, refl, sym, subst, arith, beq_refl, Option-cases, inl, inr,
}
use autonomous_rover_swarm_c.Common.Dict.{Dict, lookup, insert, keys, member-keys}
use autonomous_rover_swarm_c.Common.Sets.{member, IsDistinct}
use autonomous_rover_swarm_c.Swarm.RoleAssignment.{
  Score, beats, role_scores, best_from, chosen_role, assign_role, meet, Redistribution,
  redistribute_loop,
}

abbrev pub total : Dict String ℕ → ℕ
total [] = 0
total ((role, n) ∷ needs) = n + total needs

-- The need of the role, if there is one.
abbrev pub need : Option ℕ → ℕ
need none = 0
need (some n) = n

total-insert :
    (role : String) (n m : ℕ) (needs : Dict String ℕ)
    → lookup role needs ≡ some n
    → total (insert role m needs) + n ≡ total needs + m
unfolding lookup insert
total-insert role n m [] h = ground (arith, h)
total-insert role n m ((r, k) ∷ needs) h = ground (arith, h, total-insert role n m needs)

keys-insert :
    (role : String) (n m : ℕ) (needs : Dict String ℕ)
    → lookup role needs ≡ some n
    → keys (insert role m needs) ≡ keys needs
unfolding lookup insert keys
keys-insert role n m [] h = ground (arith, h)
keys-insert role n m ((r, k) ∷ needs) h = ground (arith, h, keys-insert role n m needs)

-- Every score is of a role that is needed.
abbrev pub Needed : Dict String ℕ → List Score → Type 0
Needed needs [] = Unit
Needed needs (a ∷ scores) = (0 < need (lookup a.role needs)) × Needed needs scores

choice-needed :
    (needs : Dict String ℕ) (better : Bool) (a b : Score)
    → 0 < need (lookup a.role needs)
    → 0 < need (lookup b.role needs)
    → 0 < need (lookup (if better then b else a).role needs)
choice-needed needs true a b h k = k
choice-needed needs false a b h k = h

best_from-Needed :
    (needs : Dict String ℕ) (a : Score) (scores : List Score)
    → 0 < need (lookup a.role needs)
    → Needed needs scores
    → 0 < need (lookup (best_from a scores).role needs)
unfolding best_from
best_from-Needed needs a [] h hs = h
best_from-Needed needs a (b ∷ bs) h hs =
    best_from-Needed needs (if beats b a then b else a) bs
      (choice-needed needs (beats b a) a b h hs.0) hs.1

Needed-weaken :
    (role : String) (n : ℕ) (needs : Dict String ℕ) (scores : List Score)
    → member role (keys needs) ≡ false
    → Needed needs scores
    → Needed ((role, n) ∷ needs) scores
unfolding lookup
Needed-weaken role n needs [] absent h = tt
Needed-weaken role n needs (a ∷ scores) absent h = (
  ground (
    arith,
    absent,
    h.0,
    string_eq.beq_iff role a.role,
    member-keys a.role needs,
    member-keys role needs,
  ),
  Needed-weaken role n needs scores absent h.1,
)

pub role_scores-Needed :
    (capabilities : List String) (needs : Dict String ℕ)
    → IsDistinct (keys needs)
    → Needed needs (role_scores capabilities needs)
unfolding role_scores keys lookup
role_scores-Needed capabilities [] distinct = tt
role_scores-Needed capabilities ((role, zero) ∷ needs) distinct =
    Needed-weaken role zero needs (role_scores capabilities needs) distinct.0
      (role_scores-Needed capabilities needs distinct.1)
role_scores-Needed capabilities ((role, suc n) ∷ needs) distinct = (
  ground (arith, beq_refl role),
  Needed-weaken role (suc n) needs (role_scores capabilities needs) distinct.0
      (role_scores-Needed capabilities needs distinct.1),
)

-- No scores means no needs.
pub role_scores-empty :
    (capabilities : List String) (needs : Dict String ℕ)
    → role_scores capabilities needs ≡ []
    → total needs ≡ 0
unfolding role_scores
role_scores-empty capabilities [] h = refl
role_scores-empty capabilities ((role, zero) ∷ needs) h =
    ground (arith, role_scores-empty capabilities needs h)
role_scores-empty capabilities ((role, suc n) ∷ needs) h = cc

-- The chosen role is one that is needed, unless nothing is.
pub chosen_role_wanted :
    (needs : Dict String ℕ) (scores : List Score)
    → Needed needs scores
    → (scores ≡ [] → total needs ≡ 0)
    → 0 < total needs
    → 0 < need (lookup (chosen_role scores) needs)
chosen_role_wanted needs [] h none_left some_left =
    absurd (ground (arith, none_left refl, some_left))
chosen_role_wanted needs (a ∷ scores) h none_left some_left =
    best_from-Needed needs a scores h.0 h.1

pub lookup-total :
    (role : String) (n : ℕ) (needs : Dict String ℕ) → lookup role needs ≡ some n → n ≤ total needs
unfolding lookup
lookup-total role n [] h = ground (arith, h)
lookup-total role n ((r, k) ∷ needs) h = ground (arith, h, lookup-total role n needs)

pub total-meet :
    (role : String) (needs : Dict String ℕ)
    → (0 < total needs → 0 < need (lookup role needs))
    → total (meet role needs) ≡ total needs - 1
total-meet role needs chosen = elim (Option-cases (lookup role needs)) [
  | inl missing ↦ ground (arith, missing, chosen)
  | inr (n, found) ↦ ground (
    arith,
    found,
    chosen,
    total-insert role n (n - 1) needs found,
    lookup-total role n needs found,
  )
]

pub keys-meet : (role : String) (needs : Dict String ℕ) → keys (meet role needs) ≡ keys needs
keys-meet role needs = elim (Option-cases (lookup role needs)) [
  | inl missing ↦ ground (arith, missing)
  | inr (n, found) ↦ ground (arith, found, keys-insert role n (n - 1) needs found)
]

-- A redistribution takes one off the unmet needs for each rover, until none is left.
pub loop_meets :
    (rovers : List String) (r : Redistribution)
    → IsDistinct (keys r.unmet)
    → total (redistribute_loop rovers r).unmet ≡ total r.unmet - length rovers
unfolding redistribute_loop assign_role
loop_meets [] r distinct = ground arith
loop_meets (rover_id ∷ rovers) r distinct =
    let scores = role_scores [] r.unmet in
    let role = chosen_role scores in
    let met = total-meet role r.unmet (
      chosen_role_wanted r.unmet scores (role_scores-Needed [] r.unmet distinct)
        (role_scores-empty [] r.unmet)) in
    let next : Redistribution = record {
      roles = insert rover_id role r.roles;
      assignments = insert rover_id role r.assignments;
      unmet = meet role r.unmet;
    } in
    let rest = loop_meets rovers next (subst IsDistinct (sym (keys-meet role r.unmet)) distinct) in
    omega (arith, met, rest)
