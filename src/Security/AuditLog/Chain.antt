-- ===== src/Security/AuditLog/Chain.antt =====
-- security/audit.py: the chain of hashes, through logging, trimming, and a restart from the log file.
use autonomous_rover_swarm_c.Common.{
  ℕ, zero, suc, ◌-◌, ◌*◌, Bool-cases, inl, inr, String, string_eq, true, ◌≡◌, ◌↔◌, refl, Option,
  none, some, List, [], ◌∷◌, ◌++◌, ltb, leb, eqb, length, drop, arith,
}
use autonomous_rover_swarm_c.Security.AuditEvent.{AuditEvent, HashInput, calculate_hash}
use autonomous_rover_swarm_c.Security.AuditLog.{
  AuditLogger, Entry, same_hash, index_event, index_all, append_event, trim_buffer, cleared,
  make_event, log_event, hash_errors, link_errors, verify_from, verify_events, verify_integrity,
}

pub same_hash_iff : (a b : Option String) → (same_hash a b ≡ true) ↔ (a ≡ b)
same_hash_iff none none = (λ h. refl, λ h. refl)
same_hash_iff none (some b) = (λ h. cc, λ h. cc)
same_hash_iff (some a) none = (λ h. cc, λ h. cc)
same_hash_iff (some a) (some b) = ground (arith, string_eq.beq_iff a b)

append_nil {ℓ} : {A : Type ℓ} (xs ys : List A) → xs ++ ys ≡ [] → (xs ≡ []) × (ys ≡ [])
append_nil [] ys h = (refl, h)
append_nil (x ∷ xs) ys h = cc

no_entries {ℓ} : {A : Type ℓ} (xs : List A) → eqb (length xs) 0 ≡ true → xs ≡ []
no_entries [] h = refl
no_entries (x ∷ xs) h = ground arith

-- A call of `log_event`: the time, the random id and the arguments.
pub record Call {ℓ} (F D : Type ℓ) : Type ℓ where
  pub now : F
  pub event_id : String
  pub entry : Entry D

module _ {ℓ} {F D : Type ℓ} where
  pub events-index_all :
      (idx : ℕ) (es : List (AuditEvent F D)) (s : AuditLogger F D)
      → ((index_all idx es s).events ≡ s.events) × ((index_all idx es s).last_hash ≡ s.last_hash)
  unfolding index_all index_event
  events-index_all idx [] s = (refl, refl)
  events-index_all idx (e ∷ es) s = events-index_all (suc idx) es (index_event idx e s)

  pub last_hash-trim_buffer : (s : AuditLogger F D) → (trim_buffer s).last_hash ≡ s.last_hash
  unfolding trim_buffer
  last_hash-trim_buffer s = elim (Bool-cases (leb (length s.events) s.max_buffer_size)) [
    | inl small ↦ rw small refl
    | inr large ↦
        let kept = drop (length s.events - s.max_buffer_size) s.events in
        rw large ((events-index_all 0 kept (cleared kept s)).1)
  ]

  module _ (digest : HashInput F D → String) where
    abbrev pub IsSealed : AuditEvent F D → Type 0
    IsSealed e = e.hash ≡ some (calculate_hash digest e e.previous_hash)

    -- Every event has its own hash and that of the event before it, and the last one has `last`.
    abbrev pub IsChain : List (AuditEvent F D) → Option String → Type 0
    IsChain [] last = Unit
    IsChain (e ∷ []) last = IsSealed e × (e.hash ≡ last)
    IsChain (e ∷ e' ∷ es) last = IsSealed e × (e'.previous_hash ≡ e.hash) × IsChain (e' ∷ es) last

    append-IsChain :
        (es : List (AuditEvent F D)) (last : Option String) (e : AuditEvent F D)
        → IsChain es last
        → IsSealed e
        → e.previous_hash ≡ last
        → IsChain (es ++ (e ∷ [])) e.hash
    append-IsChain [] last e h own link = (own, refl)
    append-IsChain (d ∷ []) last e h own link = (h.0, ground arith, (own, refl))
    append-IsChain (d ∷ d' ∷ es) last e h own link =
        (h.0, h.1, append-IsChain (d' ∷ es) last e h.2 own link)

    drop-IsChain :
        (n : ℕ) (es : List (AuditEvent F D)) (last : Option String)
        → IsChain es last
        → IsChain (drop n es) last
    drop-IsChain zero es last h = h
    drop-IsChain (suc n) [] last h = h
    drop-IsChain (suc n) (e ∷ []) last h = drop-IsChain n [] last tt
    drop-IsChain (suc n) (e ∷ e' ∷ es) last h = drop-IsChain n (e' ∷ es) last h.2

    -- The log is a chain that ends in the hash of the next event's predecessor.
    abbrev pub IsLinked : AuditLogger F D → Type 0
    IsLinked s = IsChain s.events s.last_hash

    pub append_event-IsLinked :
        (e : AuditEvent F D) (s : AuditLogger F D)
        → IsLinked s
        → IsSealed e
        → e.previous_hash ≡ s.last_hash
        → IsLinked (append_event e s)
    unfolding append_event index_event
    append_event-IsLinked e s h own link = append-IsChain s.events s.last_hash e h own link

    trim_buffer-IsLinked : (s : AuditLogger F D) → IsLinked s → IsLinked (trim_buffer s)
    unfolding trim_buffer
    trim_buffer-IsLinked s h = elim (Bool-cases (leb (length s.events) s.max_buffer_size)) [
      | inl small ↦ rw small h
      | inr large ↦
          let kept = drop (length s.events - s.max_buffer_size) s.events in
          let same = events-index_all 0 kept (cleared kept s) in
          rw large (
            rw same.0 (
              rw same.1
                (drop-IsChain (length s.events - s.max_buffer_size) s.events s.last_hash h)))
    ]

    pub make_event-IsSealed :
        (now : F) (event_id : String) (e : Entry D) (last : Option String)
        → IsSealed (make_event digest now event_id e last)
    unfolding make_event calculate_hash
    make_event-IsSealed now event_id e last = refl

    log_event-IsLinked :
        (now : F) (event_id : String) (e : Entry D) (s : AuditLogger F D)
        → IsLinked s
        → IsLinked (log_event digest now event_id e s).0
    unfolding log_event make_event
    log_event-IsLinked now event_id e s h =
        let event = make_event digest now event_id e s.last_hash in
        let grown = append_event event s in
        let linked : IsLinked grown =
          append_event-IsLinked event s h (make_event-IsSealed now event_id e s.last_hash) refl in
        elim (Bool-cases (ltb (s.max_buffer_size * 2) (length grown.events))) [
          | inl full ↦ rw full (trim_buffer-IsLinked grown linked)
          | inr room ↦ rw room linked
        ]

    -- The logger after these calls, and the events that they return.
    unfoldable pub log_all :
        List (Call F D) → AuditLogger F D → AuditLogger F D × List (AuditEvent F D)
    unfolding log_event
    log_all [] s = (s, [])
    log_all (c ∷ cs) s =
        let step = log_event digest c.now c.event_id c.entry s in
        let rest = log_all cs step.0 in (rest.0, step.1 ∷ rest.1)

    pub log_all-IsLinked :
        (cs : List (Call F D)) (s : AuditLogger F D) → IsLinked s → IsLinked (log_all cs s).0
    unfolding log_all
    log_all-IsLinked [] s h = h
    log_all-IsLinked (c ∷ cs) s h =
        log_all-IsLinked cs (log_event digest c.now c.event_id c.entry s).0
          (log_event-IsLinked c.now c.event_id c.entry s h)

    -- Every event has its own hash, and that of the event before it; `last` is before the first.
    abbrev pub Follows : Option String → List (AuditEvent F D) → Type 0
    Follows last [] = Unit
    Follows last (e ∷ es) = (e.previous_hash ≡ last) × IsSealed e × Follows e.hash es

    -- What `verify_integrity` looks at: nothing of a lone event.
    abbrev pub IsConsistent : List (AuditEvent F D) → Type 0
    IsConsistent [] = Unit
    IsConsistent (e ∷ []) = Unit
    IsConsistent (e ∷ e' ∷ es) = IsSealed e × Follows e.hash (e' ∷ es)

    hash_errors_iff : (i : ℕ) (e : AuditEvent F D) → (hash_errors digest i e ≡ []) ↔ IsSealed e
    unfolding hash_errors
    hash_errors_iff i e =
        ground (arith, same_hash_iff e.hash (some (calculate_hash digest e e.previous_hash)))

    link_errors_iff :
        (i : ℕ) (d e : AuditEvent F D)
        → (link_errors digest i d e ≡ []) ↔ (e.previous_hash ≡ d.hash)
    unfolding link_errors
    link_errors_iff i d e = ground (arith, same_hash_iff e.previous_hash d.hash)

    verify_from_iff :
        (i : ℕ) (d : AuditEvent F D) (es : List (AuditEvent F D))
        → (verify_from digest i d es ≡ []) ↔ Follows d.hash es
    unfolding verify_from
    verify_from_iff i d [] = (λ h. tt, λ h. refl)
    verify_from_iff i d (e ∷ es) =
        let link = link_errors_iff i d e in
        let own = hash_errors_iff i e in
        let rest = verify_from_iff (suc i) e es in
        (
          λ h.
              let split = append_nil _ _ h in
              let split_again = append_nil _ _ split.1 in
              (link.0 split.0, own.0 split_again.0, rest.0 split_again.1),
          λ h. simp (link.1 h.0, own.1 h.1, rest.1 h.2),
        )

    verify_events_iff :
        (es : List (AuditEvent F D)) → (verify_events digest es ≡ []) ↔ IsConsistent es
    unfolding verify_events
    verify_events_iff [] = (λ h. tt, λ h. refl)
    verify_events_iff (e ∷ []) = (λ h. tt, λ h. refl)
    verify_events_iff (e ∷ e' ∷ es) =
        let own = hash_errors_iff 0 e in
        let rest = verify_from_iff 1 e (e' ∷ es) in
        (
          λ h. let split = append_nil _ _ h in (own.0 split.0, rest.0 split.1),
          λ h. simp (own.1 h.0, rest.1 h.1),
        )

    -- `verify_integrity` reports no error exactly if, where there are two events or more, each event
    -- has the hash of its own contents under the secret key, and each but the first has the hash of
    -- the event before it as its previous hash.
    pub verify_integrity_iff :
        (s : AuditLogger F D) → ((verify_integrity digest s).0 ≡ true) ↔ IsConsistent s.events
    unfolding verify_integrity
    verify_integrity_iff s =
        let known = verify_events_iff s.events in
        (λ h. known.0 (no_entries _ h), λ h. simp (known.1 h))

    after_first :
        (e : AuditEvent F D) (es : List (AuditEvent F D)) (last : Option String)
        → IsChain (e ∷ es) last
        → Follows e.hash es
    after_first e [] last h = tt
    after_first e (e' ∷ []) last h = (h.1, h.2.0, tt)
    after_first e (e' ∷ e'' ∷ es) last h = (h.1, h.2.0, after_first e' (e'' ∷ es) last h.2)

    chain_agrees :
        (es : List (AuditEvent F D)) (last : Option String) → IsChain es last → IsConsistent es
    chain_agrees [] last h = tt
    chain_agrees (e ∷ []) last h = tt
    chain_agrees (e ∷ e' ∷ es) last h = (h.0, after_first e (e' ∷ es) last h)

    pub verified : (s : AuditLogger F D) → IsLinked s → verify_integrity digest s ≡ (true, [])
    unfolding verify_integrity
    verified s h = simp ((verify_events_iff s.events).1 (chain_agrees s.events s.last_hash h))
