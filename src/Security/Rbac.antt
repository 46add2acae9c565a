-- ===== src/Security/Rbac.antt =====
-- security/auth.py: the roles, the permissions and `RbacProvider`.
pub mod Access
use autonomous_rover_swarm_c.Common.{
  String, string_eq, Bool, true, false, not, ◌≡◌, ◌↔◌, refl, sym, ap, ◌∙◌, Option, none, some,
  or_else, List, [], ◌∷◌, if◌then◌else◌, Key, eqb, eqb_iff, ℕ, zero, suc, arith,
}
use autonomous_rover_swarm_c.Common.Errors.{Result, ok, err, authorization_error}
use autonomous_rover_swarm_c.Common.Dict.{Dict, lookup, insert}
use autonomous_rover_swarm_c.Common.Sets
use autonomous_rover_swarm_c.Common.Sets.{member, nonempty, difference}

pub data Role : Type 0 where
  admin operator observer rover : Role

pub data Permission : Type 0 where
  rover_read rover_write rover_delete rover_command mission_read mission_write mission_delete
        mission_start mission_stop :
      Permission
  swarm_config_read swarm_config_write swarm_upgrade user_read user_write user_delete audit_read
        audit_export system_admin :
      Permission

-- The place of a permission in its enumeration.
abbrev pub code : Permission → ℕ
code rover_read = 0
code rover_write = 1
code rover_delete = 2
code rover_command = 3
code mission_read = 4
code mission_write = 5
code mission_delete = 6
code mission_start = 7
code mission_stop = 8
code swarm_config_read = 9
code swarm_config_write = 10
code swarm_upgrade = 11
code user_read = 12
code user_write = 13
code user_delete = 14
code audit_read = 15
code audit_export = 16
code system_admin = 17

abbrev all_permissions : List Permission
all_permissions =
    rover_read ∷ rover_write ∷ rover_delete ∷ rover_command ∷ mission_read ∷ mission_write
    ∷ mission_delete ∷ mission_start ∷ mission_stop ∷ swarm_config_read ∷ swarm_config_write
    ∷ swarm_upgrade ∷ user_read ∷ user_write ∷ user_delete ∷ audit_read ∷ audit_export
    ∷ system_admin ∷ []

abbrev nth : List Permission → ℕ → Permission
nth [] n = system_admin
nth (p ∷ ps) zero = p
nth (p ∷ ps) (suc n) = nth ps n

nth-code : (p : Permission) → nth all_permissions (code p) ≡ p
nth-code rover_read = refl
nth-code rover_write = refl
nth-code rover_delete = refl
nth-code rover_command = refl
nth-code mission_read = refl
nth-code mission_write = refl
nth-code mission_delete = refl
nth-code mission_start = refl
nth-code mission_stop = refl
nth-code swarm_config_read = refl
nth-code swarm_config_write = refl
nth-code swarm_upgrade = refl
nth-code user_read = refl
nth-code user_write = refl
nth-code user_delete = refl
nth-code audit_read = refl
nth-code audit_export = refl
nth-code system_admin = refl

-- `ROLE_PERMISSIONS`
abbrev pub default_permissions : Role → Option (List Permission)
default_permissions admin = some all_permissions
default_permissions operator = some (
    rover_read ∷ rover_write ∷ rover_command ∷ mission_read ∷ mission_write ∷ mission_start
    ∷ mission_stop ∷ swarm_config_read ∷ audit_read ∷ [])
default_permissions observer =
    some (rover_read ∷ mission_read ∷ swarm_config_read ∷ audit_read ∷ [])
default_permissions rover = some (rover_read ∷ mission_read ∷ [])

pub code_iff : (p q : Permission) → (eqb (code p) (code q) ≡ true) ↔ (p ≡ q)
code_iff p q = (
  λ h. sym (nth-code p) ∙ ap (nth all_permissions) ((eqb_iff (code p) (code q)).0 h) ∙ nth-code q,
  λ h. (eqb_iff (code p) (code q)).1 (ap code h),
)

instance abbrev pub permission_key : Key Permission
permission_key = record { beq = λ p q. eqb (code p) (code q); beq_iff = code_iff }

-- `_user_roles.get(user_id) == role`
abbrev pub same_role : Option Role → Role → Bool
same_role (some admin) admin = true
same_role (some operator) operator = true
same_role (some observer) observer = true
same_role (some rover) rover = true
same_role _ _ = false

pub record RbacProvider : Type 0 where
  pub role_permissions : Role → Option (List Permission)
  pub user_roles : Dict String Role
  pub user_permissions : Dict String (List Permission)

-- `__init__` with no table of its own
abbrev pub new : RbacProvider
new = record { role_permissions = default_permissions; user_roles = []; user_permissions = [] }

unfoldable pub assign_role : String → Role → RbacProvider → RbacProvider
assign_role user_id role s = record s {
  user_roles = insert user_id role s.user_roles;
  user_permissions = insert user_id (or_else (s.role_permissions role) []) s.user_permissions;
}

unfoldable pub get_role : String → RbacProvider → Role
get_role user_id s = or_else (lookup user_id s.user_roles) observer

-- `self._user_permissions.get(user_id, set())`
unfoldable pub get_user_permissions : String → RbacProvider → List Permission
get_user_permissions user_id s = or_else (lookup user_id s.user_permissions) []

unfoldable pub add_permission : String → Permission → RbacProvider → RbacProvider
unfolding get_user_permissions
add_permission user_id permission s = record s {
  user_permissions =
      insert user_id (Sets.add permission (get_user_permissions user_id s)) s.user_permissions;
}

discard_in : Option (List Permission) → String → Permission → RbacProvider → RbacProvider
discard_in none user_id permission s = s
discard_in (some perms) user_id permission s = record s {
  user_permissions = insert user_id (difference perms (permission ∷ [])) s.user_permissions;
}

unfoldable pub remove_permission : String → Permission → RbacProvider → RbacProvider
unfolding discard_in
remove_permission user_id permission s =
    discard_in (lookup user_id s.user_permissions) user_id permission s

unfoldable pub has_permission : String → Permission → RbacProvider → Bool
unfolding get_user_permissions
has_permission user_id permission s =
    let user_perms = get_user_permissions user_id s in
    if member system_admin user_perms then true else member permission user_perms

unfoldable pub has_role : String → Role → RbacProvider → Bool
has_role user_id role s = same_role (lookup user_id s.user_roles) role

unfoldable pub require_permission : String → Permission → RbacProvider → Result (Unit {0})
unfolding has_permission
require_permission user_id permission s =
    if not (has_permission user_id permission s) then err authorization_error else ok tt

unfoldable pub require_role : String → Role → RbacProvider → Result (Unit {0})
unfolding has_role
require_role user_id role s =
    if not (has_role user_id role s) then err authorization_error else ok tt
