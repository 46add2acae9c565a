-- ===== src/Security/AuthMiddleware.antt =====
-- security/auth.py: `AuthMiddleware`, over the three providers. A bearer token is a text here, which
-- PyJWT decodes.
use text.Mathlib.Text.{starts_with}
use Prim.Native.String.{slice, len}
use autonomous_rover_swarm_c.Common.{
  String, string_eq, Bool, true, false, ◌≡◌, refl, Option, none, some, List, [], if◌then◌else◌, Key,
  arith, Option-cases, is_some, ◌||◌, inl, inr,
}
use autonomous_rover_swarm_c.Common.Errors.{Result, ok, err, authentication_error}
use autonomous_rover_swarm_c.Common.Dict.{Dict}
use autonomous_rover_swarm_c.Common.Floats.{Floats}
use autonomous_rover_swarm_c.Common.Text.{named}
use autonomous_rover_swarm_c.Security.Rbac.{observer, RbacProvider, get_role, get_user_permissions}
use autonomous_rover_swarm_c.Security.ApiKeys.{ApiKeyHash, validate_key}
use autonomous_rover_swarm_c.Security.Jwt.{Claims, JwtConfig, UserIdentity, get_user_from_token}
use autonomous_rover_swarm_c.Security.RateLimitMiddleware.{is_excluded}

-- The rest of a header after its prefix, `authorization[7:]`, if it has the prefix.
abbrev pub after_prefix : String → Option String → Option String
after_prefix prefix none = none
after_prefix prefix (some authorization) =
    if starts_with authorization prefix
    then some (slice authorization (len prefix) (len authorization))
    else none

unfoldable pub extract_bearer_token : Option String → Option String
extract_bearer_token authorization = after_prefix "Bearer " (named authorization)

unfoldable pub extract_api_key : Option String → Option String → Option String
extract_api_key authorization x_api_key = elim (named x_api_key) [
  | some key ↦ some key
  | none ↦ after_prefix "ApiKey " (named authorization)
]

abbrev key_user {ℓ} : {F : Type ℓ} → RbacProvider → Option String → UserIdentity F
key_user rbac none = record {
  user_id = "api-key-user";
  username = "api-key-user";
  role = observer;
  permissions = [];
  token_type = none;
  issued_at = none;
  expires_at = none;
}
key_user rbac (some user_id) = record {
  user_id = user_id;
  username = user_id;
  role = get_role user_id rbac;
  permissions = get_user_permissions user_id rbac;
  token_type = none;
  issued_at = none;
  expires_at = none;
}

-- `AuthMiddleware`; `api_keys` are the keys of its provider, if it has one.
pub record AuthMiddleware (S H F : Type 0) : Type 0 where
  pub jwt_config : JwtConfig F
  pub rbac : RbacProvider
  pub api_keys : Option (Dict String (ApiKeyHash S H F))
  pub exclude_paths : List String

module _ {S H F : Type 0} where
  module _ ⦃hash_eq : Key H⦄ (derive : String → S → H) (fl : Floats F) (encode : Claims F → String)
      (decode : String → Option String → F → String → Option (Claims F)) where
    -- The user of a bearer token, if it is valid.
    unfoldable pub jwt_user : AuthMiddleware S H F → F → Option String → Option (UserIdentity F)
    unfolding get_user_from_token
    jwt_user m now none = none
    jwt_user m now (some token) =
        elim (get_user_from_token fl encode decode m.jwt_config now token) [
          | ok user ↦ some user
          | err e ↦ none
        ]

    -- The user of an API key, and the keys, of which the one that is accepted is marked as used.
    unfoldable pub key_login :
        RbacProvider
        → F
        → Option String
        → Option (Dict String (ApiKeyHash S H F))
        → Option (Dict String (ApiKeyHash S H F)) × Option (UserIdentity F)
    unfolding validate_key
    key_login rbac now api_key none = (none, none)
    key_login rbac now none (some keys) = (some keys, none)
    key_login rbac now (some key) (some keys) =
        let checked = validate_key derive key now keys in
        (some checked.0, if checked.1 then some (key_user rbac (named checked.2)) else none)

    -- No user for an excluded path.
    unfoldable pub authenticate_request :
        AuthMiddleware S H F
        → F
        → (path : String) → (authorization_header x_api_key_header : Option String)
        → AuthMiddleware S H F × Result (Option (UserIdentity F))
    unfolding is_excluded extract_bearer_token extract_api_key jwt_user key_login
    authenticate_request m now path authorization_header x_api_key_header =
        let by_key =
          key_login m.rbac now (named (extract_api_key authorization_header x_api_key_header))
            m.api_keys in
        let after_key : Result (Option (UserIdentity F)) = elim by_key.1 [
          | some user ↦ ok (some user)
          | none ↦ err authentication_error
        ] in
        if is_excluded path m.exclude_paths
        then (m, ok none)
        else elim (jwt_user m now (named (extract_bearer_token authorization_header))) [
          | some user ↦ (m, ok (some user))
          | none ↦ (record m { api_keys = by_key.0 }, after_key)
        ]

    -- A key that the provider, if there is one, accepts.
    abbrev pub has_key : F → Option String → Option (Dict String (ApiKeyHash S H F)) → Bool
    has_key now api_key none = false
    has_key now none (some keys) = false
    has_key now (some key) (some keys) = (validate_key derive key now keys).1

    key_login_lem :
        (rbac : RbacProvider) (now : F) (api_key : Option String)
        (keys : Option (Dict String (ApiKeyHash S H F)))
        → is_some (key_login rbac now api_key keys).1 ≡ has_key now api_key keys
    unfolding key_login
    key_login_lem rbac now api_key none = refl
    key_login_lem rbac now none (some keys) = refl
    key_login_lem rbac now (some key) (some keys) = ground arith

    -- On a path that is not excluded, a request is let through exactly if its bearer token gives a
    -- user or it has an API key that the provider accepts: then there is a user, and otherwise it is
    -- refused.
    pub authenticate_request_lem :
        (m : AuthMiddleware S H F) (now : F) (path : String)
        (authorization_header x_api_key_header : Option String)
        → is_excluded path m.exclude_paths ≡ false
        → let answer = (authenticate_request m now path authorization_header x_api_key_header).1 in
          let let_in =
            is_some (jwt_user m now (named (extract_bearer_token authorization_header)))
            || has_key now
                (named (extract_api_key authorization_header x_api_key_header))
                m.api_keys in
          (let_in ≡ true → (user : UserIdentity F) × (answer ≡ ok (some user)))
          × (let_in ≡ false → answer ≡ err authentication_error)
    unfolding authenticate_request
    authenticate_request_lem m now path authorization_header x_api_key_header open_path =
        let api_key = named (extract_api_key authorization_header x_api_key_header) in
        let login = key_login m.rbac now api_key m.api_keys in
        let by_key = key_login_lem m.rbac now api_key m.api_keys in
        let by_token = jwt_user m now (named (extract_bearer_token authorization_header)) in
        elim (Option-cases by_token) [
          | inr (user, found) ↦
              (λ h. (user, ground (arith, open_path, found)), λ h. ground (arith, h, found))
          | inl missing ↦ elim (Option-cases login.1) [
            | inr (user, found) ↦ (
              λ h. (user, ground (arith, open_path, missing, found)),
              λ h. ground (arith, h, missing, found, by_key),
            )
            | inl none_either ↦ (
              λ h. ground (arith, h, missing, none_either, by_key),
              λ h. ground (arith, open_path, missing, none_either),
            )
          ]
        ]
