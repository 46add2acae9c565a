-- ===== src/Security/ApiKeys/Acceptance.antt =====
-- security/auth.py: a key that was generated is accepted until it is revoked.
use text.Mathlib.Text.{starts_with}
use text.Mathlib.TextPositions.{starts_with_of_prefix}
use autonomous_rover_swarm_c.Common.{
  String, string_eq, Bool, true, false, ◌≡◌, ◌≢◌, refl, ◌∙◌, Option, none, some, List, [], ◌∷◌, Key,
  beq_refl, All, arith,
}
use autonomous_rover_swarm_c.Common.Dict.{Dict, lookup, lookup-insert, lookup-insert_self}
use autonomous_rover_swarm_c.Security.ApiKeys.{
  ApiKeyHash, Draw, modify, full_key_of, stored_key, revoke_key, generate_key, accepts, scan,
  validate_key,
}
use autonomous_rover_swarm_c.Security.ApiKeys.Revocation.{
  Op, generates, validates, revokes, apply, run,
}

-- The call neither draws the id for a new key nor revokes it.
abbrev pub Leaves {ℓ} : {S F : Type ℓ} → String → Op S F → Type 0
Leaves id (generates draw user_id) = draw.key_id ≢ id
Leaves id (validates key now) = Unit
Leaves id (revokes key_id) = key_id ≢ id

module _ {ℓ} {S H F : Type ℓ} where
  lookup-modify :
      (id j : String) (f : ApiKeyHash S H F → ApiKeyHash S H F) (s : Dict String (ApiKeyHash S H F))
      → j ≢ id
      → lookup id (modify j f s) ≡ lookup id s
  unfolding lookup
  lookup-modify id j f [] other = refl
  lookup-modify id j f ((i, k) ∷ s) other =
      ground
        (arith, other, string_eq.beq_iff i j, string_eq.beq_iff i id, lookup-modify id j f s other)

  module _ ⦃hash_eq : Key H⦄ (derive : String → S → H) where
    -- The entry, if there is one, accepts the key.
    abbrev live : String → Option (ApiKeyHash S H F) → Bool
    live key none = false
    live key (some k) = accepts derive key k

    live-scan :
        (id key other : String) (now : F) (s : Dict String (ApiKeyHash S H F))
        → live key (lookup id (scan derive other now s).0) ≡ live key (lookup id s)
    unfolding scan lookup
    live-scan id key other now [] = refl
    live-scan id key other now ((i, k) ∷ s) = ground (arith, live-scan id key other now s)

    live-apply :
        (id key : String) (op : Op S F) (s : Dict String (ApiKeyHash S H F))
        → Leaves id op
        → live key (lookup id (apply derive op s)) ≡ live key (lookup id s)
    unfolding apply generate_key validate_key revoke_key
    live-apply id key (generates draw user_id) s other = ground (
      arith,
      other,
      string_eq.beq_iff draw.key_id id,
      lookup-insert draw.key_id id (stored_key derive draw user_id) s,
    )
    live-apply id key (validates tried now) s other = ground (arith, live-scan id key tried now s)
    live-apply id key (revokes key_id) s other =
        ground (arith, lookup-modify id key_id (λ k. record k { is_active = false }) s other)

    live-run :
        (id key : String) (ops : List (Op S F)) (s : Dict String (ApiKeyHash S H F))
        → All (Leaves id) ops
        → live key (lookup id (run derive ops s)) ≡ live key (lookup id s)
    unfolding run
    live-run id key [] s others = refl
    live-run id key (op ∷ ops) s others =
        live-run id key ops (apply derive op s) others.1 ∙ live-apply id key op s others.0

    scan_accepts :
        (id key : String) (now : F) (s : Dict String (ApiKeyHash S H F))
        → live key (lookup id s) ≡ true
        → (scan derive key now s).1 ≡ true
    unfolding scan lookup
    scan_accepts id key now [] h = ground (arith, h)
    scan_accepts id key now ((i, k) ∷ s) h = ground (arith, h, scan_accepts id key now s)

    -- The key that `generate_key` returns is accepted from then on, whatever other calls there are in
    -- between, unless they revoke its id or draw the same id for a new key.
    pub generated_accepted :
        (draw : Draw S F) (user_id : Option String) (now : F) (ops : List (Op S F))
        (s : Dict String (ApiKeyHash S H F))
        → All (Leaves draw.key_id) ops
        → (validate_key derive
            (generate_key derive draw user_id s).2
            now
            (run derive ops (generate_key derive draw user_id s).0)).1
          ≡ true
    unfolding validate_key generate_key
    generated_accepted draw user_id now ops s others =
        let key = full_key_of draw.key_encoded in
        let s' = (generate_key derive draw user_id s).0 in
        let found : lookup draw.key_id s' ≡ some (stored_key derive draw user_id) =
          lookup-insert_self draw.key_id (stored_key derive draw user_id) s in
        let alive : live key (lookup draw.key_id s') ≡ true =
          ground (arith, found, beq_refl (derive key draw.salt)) in
        let prefixed : starts_with key "rv_" ≡ true =
          starts_with_of_prefix "rv_" key (draw.key_encoded, refl) in
        rw prefixed (
          scan_accepts draw.key_id key now (run derive ops s')
            (live-run draw.key_id key ops s' others ∙ alive))
