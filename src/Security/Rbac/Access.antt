-- ===== src/Security/Rbac/Access.antt =====
-- What a user may do after changes of roles and permissions.
use autonomous_rover_swarm_c.Common.{
  String, string_eq, true, false, ◌≡◌, ◌≢◌, ap, or_else, List, [], ◌∷◌, arith, All, inl, inr,
  Option-cases,
}
use autonomous_rover_swarm_c.Common.Dict.{lookup, lookup-insert}
use autonomous_rover_swarm_c.Common.Sets
use autonomous_rover_swarm_c.Common.Sets.{member, member-add, member-difference}
use autonomous_rover_swarm_c.Security.Rbac.{
  RbacProvider, Role, Permission, system_admin, permission_key, assign_role, add_permission,
  remove_permission, has_permission, get_user_permissions,
}

-- A change that an administrator makes.
pub data Change : Type 0 where
  assigns : String → Role → Change
  adds removes : String → Permission → Change

unfoldable pub apply : Change → RbacProvider → RbacProvider
unfolding assign_role add_permission remove_permission
apply (assigns u role) s = assign_role u role s
apply (adds u permission) s = add_permission u permission s
apply (removes u permission) s = remove_permission u permission s

unfoldable pub run : RbacProvider → List Change → RbacProvider
run s [] = s
run s (c ∷ cs) = run (apply c s) cs

-- The change neither gives the user a role nor adds a permission to the user.
abbrev pub GivesNothing : String → Change → Type 0
GivesNothing user (assigns u role) = u ≢ user
GivesNothing user (adds u permission) = u ≢ user
GivesNothing user (removes u permission) = Unit

-- Every permission of the second is one of the first.
abbrev Keeps : String → RbacProvider → RbacProvider → Type 0
Keeps user s t =
    (p : Permission)
    → member p (get_user_permissions user t) ≡ true
    → member p (get_user_permissions user s) ≡ true

apply-Keeps :
    (user : String) (c : Change) (s : RbacProvider) → GivesNothing user c → Keeps user s (apply c s)
unfolding apply get_user_permissions
apply-Keeps user (assigns u role) s h p = ground (
  arith,
  string_eq.beq_iff u user,
  lookup-insert u user (or_else (s.role_permissions role) []) s.user_permissions,
)
apply-Keeps user (adds u permission) s h p = ground (
  arith,
  string_eq.beq_iff u user,
  lookup-insert u user (Sets.add permission (get_user_permissions u s)) s.user_permissions,
)
apply-Keeps user (removes u permission) s h p = elim (Option-cases (lookup u s.user_permissions)) [
  | inl missing ↦ ground arith
  | inr (perms, found) ↦ ground (
    arith,
    string_eq.beq_iff u user,
    lookup-insert u user (Sets.difference perms (permission ∷ [])) s.user_permissions,
    member-difference perms (permission ∷ []) p,
    ap (λ x. lookup x s.user_permissions) {x = u} {y = user},
  )
]

run-Keeps :
    (user : String) (s : RbacProvider) (cs : List Change)
    → All (GivesNothing user) cs
    → Keeps user s (run s cs)
unfolding run
run-Keeps user s [] h p k = k
run-Keeps user s (c ∷ cs) h p k = apply-Keeps user c s h.0 p (run-Keeps user (apply c s) cs h.1 p k)

-- No escalation: whatever is changed for other users, and whatever is taken from this one, a user
-- who is given no role and no permission gains no right.
pub no_escalation :
    (user : String) (s : RbacProvider) (cs : List Change)
    → All (GivesNothing user) cs
    → (p : Permission) → has_permission user p s ≡ false
    → has_permission user p (run s cs) ≡ false
unfolding has_permission
no_escalation user s cs h p lacks =
    ground (arith, run-Keeps user s cs h p, run-Keeps user s cs h system_admin)
