-- ===== src/Swarm/RoleAssignment.antt =====
-- swarm/role_assignment.py: `RoleAssignmentEngine`. A need is a natural number: 0 stands for all that
-- are not positive, which the code skips alike.
pub mod Needs
pub mod Shares
use text.Mathlib.Text.{starts_with}
use Prim.Native.String.{String}
use autonomous_rover_swarm_c.Common.{
  ℕ, zero, suc, ◌+◌, ◌-◌, ◌*◌, string_eq, Bool, true, false, ◌||◌, Option, none, some, or_else,
  is_some, List, [], ◌∷◌, length, keep, ltb, if◌then◌else◌, ◌==◌,
}
use autonomous_rover_swarm_c.Common.Dict.{Dict, lookup, insert, remove}

-- `part in whole`, of texts
unfoldable pub is_in : String → String → Bool
is_in part String.[] = part == ""
is_in part (String.◌∷◌ c s) = let rest = is_in part s in starts_with (String.◌∷◌ c s) part || rest

abbrev pub general_text : String
general_text = "general"

-- `ROLE_PRIORITIES.get(role, 5)`
abbrev pub priority_of : String → ℕ
priority_of role =
    if role == "relay"
    then 1
    else if role == "charger"
    then 2
    else if role == "scout"
    then 3
    else if role == "transporter"
    then 4
    else 5

-- A role with its score, `gain - needed`.
pub record Score : Type 0 where
  pub role : String
  pub gain : ℕ
  pub needed : ℕ

-- `a`'s score is greater than `b`'s
abbrev pub beats : Score → Score → Bool
beats a b = ltb (b.gain + a.needed) (a.gain + b.needed)

abbrev pub score_of : List String → String → ℕ → Score
score_of capabilities role needed = record {
  role = role;
  gain = length (keep (λ c. is_in c role) capabilities) * 10 + priority_of role;
  needed = needed;
}

-- The loop of `assign_role`: the scores of the roles that are needed.
unfoldable pub role_scores : List String → Dict String ℕ → List Score
unfolding is_in
role_scores capabilities [] = []
role_scores capabilities ((role, zero) ∷ needs) = role_scores capabilities needs
role_scores capabilities ((role, suc n) ∷ needs) =
    score_of capabilities role (suc n) ∷ role_scores capabilities needs

-- `max(...)`: the first of the greatest
unfoldable pub best_from : Score → List Score → Score
best_from a [] = a
best_from a (b ∷ bs) = best_from (if beats b a then b else a) bs

abbrev pub chosen_role : List Score → String
chosen_role [] = general_text
chosen_role (a ∷ scores) = (best_from a scores).role

-- The engine's state is `_current_roles`.
unfoldable pub assign_role :
    String → List String → Dict String ℕ → Dict String String → Dict String String × String
unfolding role_scores best_from
assign_role rover_id capabilities swarm_needs roles =
    let assigned = chosen_role (role_scores capabilities swarm_needs) in
    (insert rover_id assigned roles, assigned)

unfoldable pub get_role : String → Dict String String → Option String
get_role rover_id roles = lookup rover_id roles

unfoldable pub release_role : String → Dict String String → Dict String String
release_role rover_id roles = remove rover_id roles

-- `if role in unmet: unmet[role] = max(0, unmet[role] - 1)`
abbrev pub meet : String → Dict String ℕ → Dict String ℕ
meet role unmet = elim (lookup role unmet) [ none ↦ unmet | some n ↦ insert role (n - 1) unmet ]

-- What `redistribute` leaves: the roles, the assignments that it returns, and the unmet needs.
pub record Redistribution : Type 0 where
  pub roles : Dict String String
  pub assignments : Dict String String
  pub unmet : Dict String ℕ

unfoldable pub redistribute_loop : List String → Redistribution → Redistribution
unfolding assign_role
redistribute_loop [] r = r
redistribute_loop (rover_id ∷ rovers) r =
    let assigned = assign_role rover_id [] r.unmet r.roles in
    redistribute_loop rovers (record {
      roles = assigned.0;
      assignments = insert rover_id assigned.1 r.assignments;
      unmet = meet assigned.1 r.unmet;
    })

unfoldable pub redistribute : List String → Dict String ℕ → Dict String String → Redistribution
unfolding redistribute_loop
redistribute available_rovers swarm_needs roles =
    redistribute_loop available_rovers
      (record { roles = roles; assignments = []; unmet = swarm_needs })

-- The loop of `swarm_role_counts`.
unfoldable pub count_roles : Dict String String → Dict String ℕ → Dict String ℕ
count_roles [] counts = counts
count_roles ((rover_id, role) ∷ roles) counts =
    count_roles roles (insert role (or_else (lookup role counts) 0 + 1) counts)

unfoldable pub swarm_role_counts : Dict String String → Dict String ℕ
unfolding count_roles
swarm_role_counts roles = count_roles roles []
