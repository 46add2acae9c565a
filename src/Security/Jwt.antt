-- ===== src/Security/Jwt.antt =====
-- security/auth.py: `JwtAuthProvider`. `T` is the type of tokens and `F` that of times; `encode` and
-- `decode` are PyJWT under the provider's secret and algorithm: library code. One time stands for all
-- that a call reads from the clock.
pub mod Tokens
use autonomous_rover_swarm_c.Common.{
  ℕ, ◌*◌, String, string_eq, Bool, true, false, Option, none, some, or_else, List, [], ◌∷◌, map,
  if◌then◌else◌, ◌==◌,
}
use autonomous_rover_swarm_c.Common.Errors.{Result, ok, err, authentication_error, ◌>>=◌}
use autonomous_rover_swarm_c.Common.Floats.{Floats}
use autonomous_rover_swarm_c.Common.Sets
use autonomous_rover_swarm_c.Common.Text.{named}
use autonomous_rover_swarm_c.Security.Rbac.{
  Role, Permission, admin, operator, observer, rover, rover_read, rover_write, rover_delete,
  rover_command, mission_read, mission_write, mission_delete, mission_start, mission_stop,
  swarm_config_read, swarm_config_write, swarm_upgrade, user_read, user_write, user_delete,
  audit_read, audit_export, system_admin, default_permissions, permission_key,
}

-- `str(role)`: for a class that derives from `str` and `Enum`, the names of the class and the member.
abbrev pub role_text : Role → String
role_text admin = "Role.ADMIN"
role_text operator = "Role.OPERATOR"
role_text observer = "Role.OBSERVER"
role_text rover = "Role.ROVER"

-- `str(permission)`
abbrev pub permission_text : Permission → String
permission_text rover_read = "Permission.ROVER_READ"
permission_text rover_write = "Permission.ROVER_WRITE"
permission_text rover_delete = "Permission.ROVER_DELETE"
permission_text rover_command = "Permission.ROVER_COMMAND"
permission_text mission_read = "Permission.MISSION_READ"
permission_text mission_write = "Permission.MISSION_WRITE"
permission_text mission_delete = "Permission.MISSION_DELETE"
permission_text mission_start = "Permission.MISSION_START"
permission_text mission_stop = "Permission.MISSION_STOP"
permission_text swarm_config_read = "Permission.SWARM_CONFIG_READ"
permission_text swarm_config_write = "Permission.SWARM_CONFIG_WRITE"
permission_text swarm_upgrade = "Permission.SWARM_UPGRADE"
permission_text user_read = "Permission.USER_READ"
permission_text user_write = "Permission.USER_WRITE"
permission_text user_delete = "Permission.USER_DELETE"
permission_text audit_read = "Permission.AUDIT_READ"
permission_text audit_export = "Permission.AUDIT_EXPORT"
permission_text system_admin = "Permission.SYSTEM_ADMIN"

-- `Role(text)`: the member with that value; `none` is the `ValueError`.
abbrev pub parse_role : String → Option Role
parse_role text =
    if text == "admin"
    then some admin
    else if text == "operator"
    then some operator
    else if text == "observer"
    then some observer
    else if text == "rover"
    then some rover
    else none

-- The values of `Permission`.
abbrev pub permission_values : List (String × Permission)
permission_values =
    ("rover:read", rover_read)
    ∷ ("rover:write", rover_write)
    ∷ ("rover:delete", rover_delete)
    ∷ ("rover:command", rover_command)
    ∷ ("mission:read", mission_read)
    ∷ ("mission:write", mission_write)
    ∷ ("mission:delete", mission_delete)
    ∷ ("mission:start", mission_start)
    ∷ ("mission:stop", mission_stop)
    ∷ ("swarm:config:read", swarm_config_read)
    ∷ ("swarm:config:write", swarm_config_write)
    ∷ ("swarm:upgrade", swarm_upgrade)
    ∷ ("user:read", user_read)
    ∷ ("user:write", user_write)
    ∷ ("user:delete", user_delete)
    ∷ ("audit:read", audit_read)
    ∷ ("audit:export", audit_export)
    ∷ ("system:admin", system_admin)
    ∷ []

-- `Permission(text)`, from a list of values
abbrev pub find_permission : String → List (String × Permission) → Option Permission
find_permission text [] = none
find_permission text ((v, p) ∷ more) =
    let rest = find_permission text more in if v == text then some p else rest

-- `for p in perms_str: permissions.add(Permission(p))`, without those that are unknown
unfoldable pub parse_permissions : List String → List Permission
parse_permissions [] = []
parse_permissions (text ∷ more) =
    let rest = parse_permissions more in
    elim (find_permission text permission_values) [ none ↦ rest | some p ↦ Sets.add p rest ]

-- The claims of a token that the provider reads or writes; a refresh token has no role and no
-- permissions.
pub record Claims {ℓ} (F : Type ℓ) : Type ℓ where
  pub sub : Option String
  pub username : Option String
  pub role : Option String
  pub permissions : List String
  pub token_type : Option String
  pub iat : F
  pub exp : F
  pub iss : String
  pub aud : Option String

pub record JwtConfig {ℓ} (F : Type ℓ) : Type ℓ where
  pub access_token_expire_minutes : ℕ
  pub refresh_token_expire_days : ℕ
  pub issuer : String
  pub audience : Option String

pub record UserIdentity {ℓ} (F : Type ℓ) : Type ℓ where
  pub user_id : String
  pub username : String
  pub role : Role
  pub permissions : List Permission
  pub token_type : Option String
  pub issued_at : Option F
  pub expires_at : Option F

abbrev pub parsed_role : Option String → Role
parsed_role none = observer
parsed_role (some text) = or_else (parse_role text) observer

-- `if not permissions: permissions = ROLE_PERMISSIONS.get(role, set())`
abbrev pub or_default : List Permission → Role → List Permission
or_default [] role = or_else (default_permissions role) []
or_default (p ∷ ps) role = p ∷ ps

module _ {ℓ} {F T : Type ℓ} (fl : Floats F) (encode : Claims F → T) where
  -- `custom_claims` changes the claims, `none` where there are none.
  unfoldable pub create_access_token :
      JwtConfig F → String → Role → List Permission → Option (Claims F → Claims F) → F → T
  create_access_token config user_id role permissions custom_claims now =
      let expire = fl.add now (fl.of_nat (config.access_token_expire_minutes * 60)) in
      let claims : Claims F = record {
        sub = some user_id;
        username = none;
        role = some (role_text role);
        permissions = map permission_text permissions;
        token_type = some "access";
        iat = now;
        exp = expire;
        iss = config.issuer;
        aud = named config.audience;
      } in
      encode (or_else custom_claims (λ c. c) claims)

  unfoldable pub create_refresh_token : JwtConfig F → String → Option (Claims F → Claims F) → F → T
  create_refresh_token config user_id custom_claims now =
      let expire = fl.add now (fl.of_nat (config.refresh_token_expire_days * 86400)) in
      let claims : Claims F = record {
        sub = some user_id;
        username = none;
        role = none;
        permissions = [];
        token_type = some "refresh";
        iat = now;
        exp = expire;
        iss = config.issuer;
        aud = none;
      } in
      encode (or_else custom_claims (λ c. c) claims)

  -- `decode` takes the issuer and the audience that it checks, the time, and the token; `none` is any
  -- error of PyJWT, each of which becomes an authentication error.
  module _ (decode : String → Option String → F → T → Option (Claims F)) where
    unfoldable pub validate_token : JwtConfig F → F → T → Result (Claims F)
    validate_token config now token =
        elim (decode config.issuer (named config.audience) now token) [
          | none ↦ err authentication_error
          | some payload ↦ ok payload
        ]

    abbrev subject : Option String → Result String
    subject none = err authentication_error
    subject (some user_id) = ok user_id

    -- The new access token and the new refresh token.
    unfoldable pub refresh_access_token :
        JwtConfig F → F → T → Role → List Permission → Result (T × T)
    unfolding validate_token create_access_token create_refresh_token
    refresh_access_token config now refresh_token role permissions = do
      payload ← validate_token config now refresh_token
      user_id ←
          if or_else payload.token_type "" == "refresh"
          then subject (named payload.sub)
          else err authentication_error
      ok (
        create_access_token config user_id role permissions none now,
        create_refresh_token config user_id none now,
      )

    abbrev user_of : String → Claims F → UserIdentity F
    user_of user_id payload =
        let role = parsed_role (named payload.role) in
        record {
          user_id = user_id;
          username = or_else payload.username user_id;
          role = role;
          permissions = or_default (parse_permissions payload.permissions) role;
          token_type = payload.token_type;
          issued_at = some payload.iat;
          expires_at = some payload.exp;
        }

    unfoldable pub get_user_from_token : JwtConfig F → F → T → Result (UserIdentity F)
    unfolding validate_token parse_permissions
    get_user_from_token config now token = do
      payload ← validate_token config now token
      user_id ← subject (named payload.sub)
      ok (user_of user_id payload)
