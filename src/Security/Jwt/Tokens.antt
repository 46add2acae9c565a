-- ===== src/Security/Jwt/Tokens.antt =====
-- security/auth.py: what becomes of the tokens that `JwtAuthProvider` makes.
use autonomous_rover_swarm_c.Common.{
  ◌*◌, String, string_eq, true, ◌≡◌, refl, sym, subst, Option, none, some, or_else, List, [], ◌∷◌,
  map, arith,
}
use autonomous_rover_swarm_c.Common.Errors.{ok, err, authentication_error}
use autonomous_rover_swarm_c.Common.Floats.{Floats}
use autonomous_rover_swarm_c.Common.Text.{named}
use autonomous_rover_swarm_c.Security.Rbac.{
  Role, Permission, observer, admin, operator, rover, default_permissions, rover_read, rover_write,
  rover_delete, rover_command, mission_read, mission_write, mission_delete, mission_start,
  mission_stop, swarm_config_read, swarm_config_write, swarm_upgrade, user_read, user_write,
  user_delete, audit_read, audit_export, system_admin,
}
use autonomous_rover_swarm_c.Security.Jwt.{
  Claims, JwtConfig, role_text, permission_text, permission_values, find_permission,
  parse_permissions, parsed_role, create_access_token, create_refresh_token, validate_token,
  refresh_access_token, get_user_from_token,
}

unknown_role : (role : Role) → parsed_role (named (some (role_text role))) ≡ observer
unknown_role admin = refl
unknown_role operator = refl
unknown_role observer = refl
unknown_role rover = refl

unknown_permission : (p : Permission) → find_permission (permission_text p) permission_values ≡ none
unknown_permission rover_read = refl
unknown_permission rover_write = refl
unknown_permission rover_delete = refl
unknown_permission rover_command = refl
unknown_permission mission_read = refl
unknown_permission mission_write = refl
unknown_permission mission_delete = refl
unknown_permission mission_start = refl
unknown_permission mission_stop = refl
unknown_permission swarm_config_read = refl
unknown_permission swarm_config_write = refl
unknown_permission swarm_upgrade = refl
unknown_permission user_read = refl
unknown_permission user_write = refl
unknown_permission user_delete = refl
unknown_permission audit_read = refl
unknown_permission audit_export = refl
unknown_permission system_admin = refl

unknown_permissions : (ps : List Permission) → parse_permissions (map permission_text ps) ≡ []
unfolding parse_permissions
unknown_permissions [] = refl
unknown_permissions (p ∷ ps) = ground (arith, unknown_permission p, unknown_permissions ps)

module _ {ℓ} {F T : Type ℓ} (fl : Floats F) (encode : Claims F → T)
    (decode : String → Option String → F → T → Option (Claims F)) where
  -- What PyJWT promises of a token that it made: before the token expires, decoding gives back its
  -- claims, if the issuer and the audience are those that are asked for, and it fails if an audience
  -- is asked for and the token has none.
  pub record IsJwt : Type ℓ where
    pub decode-encode :
        (c : Claims F) (now : F)
        → fl.lt now c.exp ≡ true
        → decode c.iss c.aud now (encode c) ≡ some c
    pub decode_other :
        (c : Claims F) (now : F) (audience : String)
        → c.aud ≡ none
        → decode c.iss (some audience) now (encode c) ≡ none

  -- The claims of an access token.
  abbrev access_claims : JwtConfig F → String → Role → List Permission → F → Claims F
  access_claims config user_id role permissions made = record {
    sub = some user_id;
    username = none;
    role = some (role_text role);
    permissions = map permission_text permissions;
    token_type = some "access";
    iat = made;
    exp = fl.add made (fl.of_nat (config.access_token_expire_minutes * 60));
    iss = config.issuer;
    aud = named config.audience;
  }

  -- The claims of a refresh token.
  abbrev refresh_claims : JwtConfig F → String → F → Claims F
  refresh_claims config user_id made = record {
    sub = some user_id;
    username = none;
    role = none;
    permissions = [];
    token_type = some "refresh";
    iat = made;
    exp = fl.add made (fl.of_nat (config.refresh_token_expire_days * 86400));
    iss = config.issuer;
    aud = none;
  }

  validate_some :
      (config : JwtConfig F) (now : F) (token : T) (payload : Claims F)
      → decode config.issuer (named config.audience) now token ≡ some payload
      → validate_token fl encode decode config now token ≡ ok payload
  unfolding validate_token
  validate_some config now token payload h = ground (arith, h)

  validate_none :
      (config : JwtConfig F) (now : F) (token : T)
      → decode config.issuer (named config.audience) now token ≡ none
      → validate_token fl encode decode config now token ≡ err authentication_error
  unfolding validate_token
  validate_none config now token h = ground (arith, h)

  -- An access token without claims of the caller, read before it expires, always gives an observer
  -- with an observer's default permissions: `str(role)` and `str(permission)`, which the token
  -- carries, are not the values that are read back, whatever role and permissions it was made with.
  pub token_user_is_observer :
      (jwt : IsJwt) (config : JwtConfig F) (user_id : String) (role : Role)
      (permissions : List Permission) (made now : F)
      → named (some user_id) ≡ some user_id
      → fl.lt now (fl.add made (fl.of_nat (config.access_token_expire_minutes * 60))) ≡ true
      → get_user_from_token fl encode decode config now
          (create_access_token fl encode config user_id role permissions none made)
        ≡ ok (record {
          user_id = user_id;
          username = user_id;
          role = observer;
          permissions = or_else (default_permissions observer) [];
          token_type = some "access";
          issued_at = some made;
          expires_at = some (fl.add made (fl.of_nat (config.access_token_expire_minutes * 60)));
        })
  unfolding get_user_from_token create_access_token
  token_user_is_observer jwt config user_id role permissions made now a_name fresh =
      let claims = access_claims config user_id role permissions made in
      rw (validate_some config now (encode claims) claims (jwt.decode-encode claims now fresh))
        (rw a_name (rw (unknown_role role) (rw (unknown_permissions permissions) refl)))

  -- A refresh token without claims of the caller, used before it expires, gives a new access token for
  -- the role and the permissions that the caller names, and a new refresh token, for the same user, if
  -- the configuration has no audience; if it has one, the call always fails. An access token is never
  -- accepted in its place.
  pub refresh_access_token_lem :
      (jwt : IsJwt) (config : JwtConfig F) (user_id : String) (role : Role)
      (permissions : List Permission) (made now : F)
      → named (some user_id) ≡ some user_id
      → (named config.audience ≡ none
          → fl.lt now (fl.add made (fl.of_nat (config.refresh_token_expire_days * 86400))) ≡ true
          → refresh_access_token fl encode decode config now
              (create_refresh_token fl encode config user_id none made)
              role
              permissions
            ≡ ok (
              create_access_token fl encode config user_id role permissions none now,
              create_refresh_token fl encode config user_id none now,
            ))
        × ((audience : String)
            → named config.audience ≡ some audience
            → refresh_access_token fl encode decode config now
                (create_refresh_token fl encode config user_id none made)
                role
                permissions
              ≡ err authentication_error)
        × (fl.lt now (fl.add made (fl.of_nat (config.access_token_expire_minutes * 60))) ≡ true
            → refresh_access_token fl encode decode config now
                (create_access_token fl encode config user_id role permissions none made)
                role
                permissions
              ≡ err authentication_error)
  unfolding refresh_access_token create_access_token create_refresh_token
  refresh_access_token_lem jwt config user_id role permissions made now a_name = (
    λ missing fresh.
        let claims = refresh_claims config user_id made in
        let read =
          subst (λ a. decode config.issuer a now (encode claims) ≡ some claims) (sym missing)
            (jwt.decode-encode claims now fresh) in
        rw (validate_some config now (encode claims) claims read) (rw a_name refl),
    λ audience found.
        let claims = refresh_claims config user_id made in
        let read =
          subst (λ a. decode config.issuer a now (encode claims) ≡ none) (sym found)
            (jwt.decode_other claims now audience refl) in
        rw (validate_none config now (encode claims) read) refl,
    λ fresh.
        let claims = access_claims config user_id role permissions made in
        rw (validate_some config now (encode claims) claims (jwt.decode-encode claims now fresh))
          refl,
  )
