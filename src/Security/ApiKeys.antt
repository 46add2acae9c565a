-- ===== src/Security/ApiKeys.antt =====
-- security/auth.py: `ApiKeyProvider`. `S`, `H` and `F` are the types of salts, hashes and times, and
-- `derive` is PBKDF2 with the parameters of `_hash_key`: library code. The
-- state of the provider is `_keys`, by id.
pub mod Acceptance
pub mod Revocation
use Prim.Native.String.{◌++◌}
use text.Mathlib.Text.{starts_with}
use autonomous_rover_swarm_c.Common.{
  String, string_eq, Bool, true, false, ◌&&◌, not, Option, none, some, List, [], ◌∷◌, if◌then◌else◌,
  ◌==◌, Key, is_some,
}
use autonomous_rover_swarm_c.Common.Dict.{Dict, lookup, insert}

pub record ApiKeyHash {ℓ} (S H F : Type ℓ) : Type ℓ where
  pub hash_bytes : H
  pub salt : S
  pub created_at : F
  pub last_used_at : Option F
  pub user_id : Option String
  pub is_active : Bool

-- What `generate_key` draws at random, and the time.
pub record Draw {ℓ} (S F : Type ℓ) : Type ℓ where
  pub key_encoded : String
  pub key_id : String
  pub salt : S
  pub now : F

-- `self._keys[k] = f(self._keys[k])`, where there is such a key
abbrev pub modify {ℓ} : {V : Type ℓ} → String → (V → V) → Dict String V → Dict String V
modify k f [] = []
modify k f ((j, v) ∷ d) = let rest = modify k f d in (j, if j == k then f v else v) ∷ rest

abbrev pub full_key_of : String → String
full_key_of key_encoded = "rv_" ++ key_encoded

module _ {ℓ} {S H F : Type ℓ} where
  unfoldable pub revoke_key :
      String → Dict String (ApiKeyHash S H F) → Dict String (ApiKeyHash S H F) × Bool
  revoke_key key_id s =
      if is_some (lookup key_id s)
      then (modify key_id (λ k. record k { is_active = false }) s, true)
      else (s, false)

  module _ ⦃h : Key H⦄ (derive : String → S → H) where
    abbrev pub stored_key : Draw S F → Option String → ApiKeyHash S H F
    stored_key draw user_id = record {
      hash_bytes = derive (full_key_of draw.key_encoded) draw.salt;
      salt = draw.salt;
      created_at = draw.now;
      last_used_at = none;
      user_id = user_id;
      is_active = true;
    }

    -- The new key's id and the key.
    unfoldable pub generate_key :
        Draw S F
        → Option String
        → Dict String (ApiKeyHash S H F)
        → Dict String (ApiKeyHash S H F) × String × String
    generate_key draw user_id s =
        (insert draw.key_id (stored_key draw user_id) s, draw.key_id, full_key_of draw.key_encoded)

    -- The two tests of the loop of `validate_key`; `compare_digest` is equality.
    abbrev pub accepts : String → ApiKeyHash S H F → Bool
    accepts key stored = stored.is_active && derive key stored.salt == stored.hash_bytes

    -- The loop of `validate_key`.
    unfoldable pub scan :
        String
        → F
        → Dict String (ApiKeyHash S H F)
        → Dict String (ApiKeyHash S H F) × Bool × Option String
    scan key now [] = ([], false, none)
    scan key now ((key_id, stored) ∷ more) =
        let rest = scan key now more in
        if accepts key stored
        then ((key_id, record stored { last_used_at = some now }) ∷ more, true, stored.user_id)
        else ((key_id, stored) ∷ rest.0, rest.1, rest.2)

    unfoldable pub validate_key :
        String
        → F
        → Dict String (ApiKeyHash S H F)
        → Dict String (ApiKeyHash S H F) × Bool × Option String
    unfolding scan
    validate_key key now s =
        if not (starts_with key "rv_") then (s, false, none) else scan key now s
