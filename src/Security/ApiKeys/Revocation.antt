-- ===== src/Security/ApiKeys/Revocation.antt =====
-- security/auth.py: a key is accepted until it is revoked, and never after.
use text.Mathlib.Text.{starts_with}
use autonomous_rover_swarm_c.Common.{
  String, string_eq, false, ◌≡◌, ◌≢◌, refl, Option, none, List, [], ◌∷◌, ◌==◌, Key, All, Bool-cases,
  Option-cases, inl, inr, arith,
}
use autonomous_rover_swarm_c.Common.Dict.{Dict, lookup, insert}
use autonomous_rover_swarm_c.Security.ApiKeys.{
  ApiKeyHash, Draw, modify, revoke_key, generate_key, accepts, scan, validate_key,
}

-- A call of the provider.
pub data Op {ℓ} (S F : Type ℓ) : Type ℓ where
  generates : Draw S F → Option String → Op S F
  validates : String → F → Op S F
  revokes : String → Op S F

module _ {ℓ} {S H F : Type ℓ} where
  -- Every entry under the id has been revoked.
  abbrev pub IsRevoked : String → Dict String (ApiKeyHash S H F) → Type 0
  IsRevoked id s = All (λ p. p.0 ≡ id → p.1.is_active ≡ false) s

  modify-IsRevoked :
      (id j : String) (s : Dict String (ApiKeyHash S H F))
      → IsRevoked id s
      → IsRevoked id (modify j (λ k. record k { is_active = false }) s)
  modify-IsRevoked id j [] h = tt
  modify-IsRevoked id j ((i, k) ∷ s) h =
      (λ same. ground (arith, h.0 same), modify-IsRevoked id j s h.1)

  modify_revokes :
      (id : String) (s : Dict String (ApiKeyHash S H F))
      → IsRevoked id (modify id (λ k. record k { is_active = false }) s)
  modify_revokes id [] = tt
  modify_revokes id ((i, k) ∷ s) =
      (λ same. ground (arith, string_eq.beq_iff i id), modify_revokes id s)

  missing-IsRevoked :
      (id : String) (s : Dict String (ApiKeyHash S H F)) → lookup id s ≡ none → IsRevoked id s
  unfolding lookup
  missing-IsRevoked id [] h = tt
  missing-IsRevoked id ((i, k) ∷ s) h =
      (λ same. ground (arith, string_eq.beq_iff i id), missing-IsRevoked id s (ground arith))

  revoke_key-IsRevoked :
      (id : String) (s : Dict String (ApiKeyHash S H F)) → IsRevoked id (revoke_key id s).0
  unfolding revoke_key
  revoke_key-IsRevoked id s = elim (Option-cases (lookup id s)) [
    | inl missing ↦ rw missing (missing-IsRevoked id s missing)
    | inr (k, found) ↦ rw found (modify_revokes id s)
  ]

  revoke_key_keeps-Revoked :
      (id j : String) (s : Dict String (ApiKeyHash S H F))
      → IsRevoked id s
      → IsRevoked id (revoke_key j s).0
  unfolding revoke_key
  revoke_key_keeps-Revoked id j s h = elim (Option-cases (lookup j s)) [
    | inl missing ↦ rw missing h
    | inr (k, found) ↦ rw found (modify-IsRevoked id j s h)
  ]

  insert-IsRevoked :
      (id j : String) (k : ApiKeyHash S H F) (s : Dict String (ApiKeyHash S H F))
      → j ≢ id
      → IsRevoked id s
      → IsRevoked id (insert j k s)
  unfolding insert
  insert-IsRevoked id j k [] other h = (λ same. ground (arith, other), tt)
  insert-IsRevoked id j k ((i, k') ∷ s) other h = elim (Bool-cases (i == j)) [
    | inl same ↦ rw same ((λ same'. ground (arith, other, string_eq.beq_iff i j)), h.1)
    | inr differs ↦ rw differs (h.0, insert-IsRevoked id j k s other h.1)
  ]

  module _ ⦃hash_eq : Key H⦄ (derive : String → S → H) where
    unfoldable pub apply : Op S F → Dict String (ApiKeyHash S H F) → Dict String (ApiKeyHash S H F)
    unfolding generate_key validate_key revoke_key
    apply (generates draw user_id) s = (generate_key derive draw user_id s).0
    apply (validates key now) s = (validate_key derive key now s).0
    apply (revokes key_id) s = (revoke_key key_id s).0

    unfoldable pub run :
        List (Op S F) → Dict String (ApiKeyHash S H F) → Dict String (ApiKeyHash S H F)
    unfolding apply
    run [] s = s
    run (op ∷ ops) s = run ops (apply op s)

    -- The call draws another id for a new key.
    abbrev pub Avoids : String → Op S F → Type 0
    Avoids id (generates draw user_id) = draw.key_id ≢ id
    Avoids id (validates key now) = Unit
    Avoids id (revokes key_id) = Unit

    scan-IsRevoked :
        (id key : String) (now : F) (s : Dict String (ApiKeyHash S H F))
        → IsRevoked id s
        → IsRevoked id (scan derive key now s).0
    unfolding scan
    scan-IsRevoked id key now [] h = tt
    scan-IsRevoked id key now ((i, k) ∷ s) h = elim (Bool-cases (accepts derive key k)) [
      | inl accepted ↦ rw accepted (h.0, h.1)
      | inr refused ↦ rw refused (h.0, scan-IsRevoked id key now s h.1)
    ]

    validate_key-IsRevoked :
        (id key : String) (now : F) (s : Dict String (ApiKeyHash S H F))
        → IsRevoked id s
        → IsRevoked id (validate_key derive key now s).0
    unfolding validate_key
    validate_key-IsRevoked id key now s h = elim (Bool-cases (starts_with key "rv_")) [
      | inl ours ↦ rw ours (scan-IsRevoked id key now s h)
      | inr foreign ↦ rw foreign h
    ]

    apply-IsRevoked :
        (id : String) (op : Op S F) (s : Dict String (ApiKeyHash S H F))
        → Avoids id op
        → IsRevoked id s
        → IsRevoked id (apply op s)
    unfolding apply generate_key
    apply-IsRevoked id (generates draw user_id) s other h =
        insert-IsRevoked id draw.key_id _ s other h
    apply-IsRevoked id (validates key now) s other h = validate_key-IsRevoked id key now s h
    apply-IsRevoked id (revokes key_id) s other h = revoke_key_keeps-Revoked id key_id s h

    run-IsRevoked :
        (id : String) (ops : List (Op S F)) (s : Dict String (ApiKeyHash S H F))
        → All (Avoids id) ops
        → IsRevoked id s
        → IsRevoked id (run ops s)
    unfolding run
    run-IsRevoked id [] s others h = h
    run-IsRevoked id (op ∷ ops) s others h =
        run-IsRevoked id ops (apply op s) others.1 (apply-IsRevoked id op s others.0 h)

    scan_refuses :
        (id key : String) (now : F) (s : Dict String (ApiKeyHash S H F))
        → IsRevoked id s
        → All (λ p. p.0 ≢ id → accepts derive key p.1 ≡ false) s
        → ((scan derive key now s).1 ≡ false) × ((scan derive key now s).2 ≡ none)
    unfolding scan
    scan_refuses id key now [] h k = (refl, refl)
    scan_refuses id key now ((i, stored) ∷ s) h k =
        let rest = scan_refuses id key now s h.1 k.1 in
        let refused : accepts derive key stored ≡ false = elim (Bool-cases (i == id)) [
          | inl same ↦ ground (arith, h.0 ((string_eq.beq_iff i id).0 same))
          | inr differs ↦ k.0 (λ same. ground (arith, differs, (string_eq.beq_iff i id).1 same))
        ] in
        rw refused rest

    -- A key that was revoked is refused from then on, whatever keys are generated under other ids,
    -- validated or revoked in between, unless it has the hash of another key that is active.
    pub revoked_refused :
        (id key : String) (now : F) (ops : List (Op S F)) (s : Dict String (ApiKeyHash S H F))
        → All (Avoids id) ops
        → All (λ p. p.0 ≢ id → accepts derive key p.1 ≡ false) (run ops (revoke_key id s).0)
        → ((validate_key derive key now (run ops (revoke_key id s).0)).1 ≡ false)
          × ((validate_key derive key now (run ops (revoke_key id s).0)).2 ≡ none)
    unfolding validate_key
    revoked_refused id key now ops s others alone =
        let known = run-IsRevoked id ops (revoke_key id s).0 others (revoke_key-IsRevoked id s) in
        let refused = scan_refuses id key now (run ops (revoke_key id s).0) known alone in
        elim (Bool-cases (starts_with key "rv_")) [
          | inl ours ↦ rw ours refused
          | inr foreign ↦ rw foreign (refl, refl)
        ]
