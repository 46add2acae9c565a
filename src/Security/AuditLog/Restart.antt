-- ===== src/Security/AuditLog/Restart.antt =====
-- security/audit.py: the log file, and a logger that is started again from it.
use autonomous_rover_swarm_c.Common.{
  ℕ, ◌*◌, ltb, length, Bool-cases, inl, inr, String, true, ◌≡◌, refl, sym, subst, ◌∙◌, Option, none,
  some, List, [], ◌∷◌, map, arith, All,
}
use autonomous_rover_swarm_c.Common.Errors.{Result, ok, err, ok-injective, ◌>>=◌}
use autonomous_rover_swarm_c.Security.AuditEvent.{
  AuditEvent, EventDict, HashInput, to_dict, from_dict,
}
use autonomous_rover_swarm_c.Security.AuditEvent.RoundTrip.{from_dict-to_dict}
use autonomous_rover_swarm_c.Security.AuditLog.{
  AuditLogger, empty_logger, new, append_event, load_from_file, make_event, log_event,
  verify_integrity,
}
use autonomous_rover_swarm_c.Security.AuditLog.Chain.{
  Call, Follows, IsLinked, log_all, log_all-IsLinked, append_event-IsLinked, make_event-IsSealed,
  verified, last_hash-trim_buffer,
}

-- What a reader makes of a line of the log file.
abbrev readable {ℓ} : {A : Type ℓ} → Result A → Option A
readable (ok a) = some a
readable (err e) = none

-- `dumps` writes the JSON text of a dictionary and `loads` reads one, or fails; a line is of type `T`.
module _ {ℓ} {F D T : Type ℓ} (dumps : EventDict F D → T) (loads : T → Option (EventDict F D)) where
  -- The line that `_write_event` writes of an event.
  abbrev pub line_of : AuditEvent F D → T
  line_of e = dumps (to_dict e)

  -- What `_load_from_file` makes of a line that is not blank.
  abbrev pub read_line : T → Option (AuditEvent F D)
  read_line line = elim (loads line) [ none ↦ none | some d ↦ readable (from_dict d) ]

  -- `__init__` with the lines of a log file
  unfoldable pub restart : ℕ → ℕ → List T → Result (AuditLogger F D)
  unfolding new load_from_file
  restart key_size max_buffer_size lines = do
    s ← new key_size max_buffer_size
    ok (load_from_file (map read_line lines) s)

  -- JSON gives back a dictionary of texts and numbers, and details as `reads` says: keys that are no
  -- texts, and tuples, do not come back as they were.
  abbrev pub IsJson : (D → D) → Type ℓ
  IsJson reads =
      (d : EventDict F D) → loads (dumps d) ≡ some (record d { details = reads d.details })

module _ {ℓ} {F D : Type ℓ} where
  module _ (digest : HashInput F D → String) where
    new-Linked :
        (key_size max_buffer_size : ℕ) (s : AuditLogger F D)
        → new key_size max_buffer_size ≡ ok s
        → IsLinked digest s × (s.last_hash ≡ none)
    unfolding new
    new-Linked key_size max_buffer_size s made = elim (Bool-cases (ltb key_size 32)) [
      | inl short ↦ ground (arith, made, short)
      | inr long ↦
          let same =
            ok-injective {a = empty_logger max_buffer_size} {b = s} (ground (arith, made, long)) in
          subst (λ t. IsLinked digest t × (t.last_hash ≡ none)) same (tt, refl)
    ]

    -- The hash that the next event is chained to, after these events.
    abbrev hash_after : Option String → List (AuditEvent F D) → Option String
    hash_after last [] = last
    hash_after last (e ∷ es) = hash_after e.hash es

    last_hash-log_event :
        (c : Call F D) (s : AuditLogger F D)
        → (log_event digest c.now c.event_id c.entry s).0.last_hash
          ≡ (make_event digest c.now c.event_id c.entry s.last_hash).hash
    unfolding log_event append_event
    last_hash-log_event c s =
        let event = make_event digest c.now c.event_id c.entry s.last_hash in
        let grown = append_event event s in
        elim (Bool-cases (ltb (s.max_buffer_size * 2) (length grown.events))) [
          | inl full ↦ rw full (last_hash-trim_buffer grown)
          | inr room ↦ rw room refl
        ]

    log_all-Follows :
        (cs : List (Call F D)) (s : AuditLogger F D)
        → Follows digest s.last_hash (log_all digest cs s).1
          × ((log_all digest cs s).0.last_hash ≡ hash_after s.last_hash (log_all digest cs s).1)
    unfolding log_all
    log_all-Follows [] s = (tt, refl)
    log_all-Follows (c ∷ cs) s =
        let next = (log_event digest c.now c.event_id c.entry s).0 in
        let event = make_event digest c.now c.event_id c.entry s.last_hash in
        let out = log_all digest cs next in
        let rest =
          subst (λ h. Follows digest h out.1 × (out.0.last_hash ≡ hash_after h out.1))
            (last_hash-log_event c s) (log_all-Follows cs next) in
        ((refl, make_event-IsSealed digest c.now c.event_id c.entry s.last_hash, rest.0), rest.1)

    module _ {T : Type ℓ} (dumps : EventDict F D → T) (loads : T → Option (EventDict F D))
        (reads : D → D) (json : IsJson dumps loads reads) where
      -- The details of what is logged come back from JSON as they were.
      abbrev pub IsPlain : Call F D → Type ℓ
      IsPlain c = reads c.entry.details ≡ c.entry.details

      abbrev IsPlainEvent : AuditEvent F D → Type ℓ
      IsPlainEvent e = reads e.details ≡ e.details

      line_of-readable :
          (e : AuditEvent F D)
          → IsPlainEvent e
          → read_line dumps loads (line_of dumps loads e) ≡ some e
      line_of-readable e plain =
          let written = to_dict e in
          let same : record written { details = reads written.details } ≡ written =
            unfold to_dict in rw plain refl in
          rw (read_line, json written) (rw same (simp (from_dict-to_dict e)))

      log_all-plain :
          (cs : List (Call F D)) (s : AuditLogger F D)
          → All IsPlain cs
          → All IsPlainEvent (log_all digest cs s).1
      unfolding log_all
      log_all-plain [] s plain = tt
      log_all-plain (c ∷ cs) s plain = (
        unfold log_event make_event in plain.0,
        log_all-plain cs (log_event digest c.now c.event_id c.entry s).0 plain.1,
      )

      abbrev loaded : List (AuditEvent F D) → AuditLogger F D → AuditLogger F D
      loaded es s = load_from_file (map (read_line dumps loads) (map (line_of dumps loads) es)) s

      load-Linked :
          (es : List (AuditEvent F D)) (s : AuditLogger F D)
          → All IsPlainEvent es
          → IsLinked digest s
          → Follows digest s.last_hash es
          → IsLinked digest (loaded es s) × ((loaded es s).last_hash ≡ hash_after s.last_hash es)
      unfolding load_from_file append_event
      load-Linked [] s plain h k = (h, refl)
      load-Linked (e ∷ es) s plain h k = rw (line_of-readable e plain.0) (
          load-Linked es (append_event e s) plain.1 (append_event-IsLinked digest e s h k.1 k.0)
            k.2)

      -- A logger that starts empty with a secret key that is long enough, and logs any events, reports
      -- no error of its log, however often it has trimmed it. A logger that is then started from the
      -- file of the lines of these events goes on from the same last hash, and reports no error
      -- either, whatever it logs from then on. The condition is that JSON gives back an event's
      -- dictionary unchanged but for the details, and the details of the events in the file too.
      pub restart-verified :
          (key_size max_buffer_size : ℕ) (s : AuditLogger F D) (before after : List (Call F D))
          → new key_size max_buffer_size ≡ ok s
          → All IsPlain before
          → (verify_integrity digest (log_all digest before s).0 ≡ (true, []))
            × ((t : AuditLogger F D) × (restart dumps loads key_size max_buffer_size
                    (map (line_of dumps loads) (log_all digest before s).1)
                  ≡ ok t)
                × (t.last_hash ≡ (log_all digest before s).0.last_hash)
                × (verify_integrity digest (log_all digest after t).0 ≡ (true, [])))
      unfolding restart
      restart-verified key_size max_buffer_size s before after made plain =
          let fresh : IsLinked digest s × (s.last_hash ≡ none) =
            new-Linked key_size max_buffer_size s made in
          let out = log_all digest before s in
          let logged = log_all-Follows before s in
          let again = load-Linked out.1 s (log_all-plain before s plain) fresh.0 logged.0 in
          (
            verified digest out.0 (log_all-IsLinked digest before s fresh.0),
            (
              loaded out.1 s,
              rw made refl,
              again.1 ∙ sym logged.1,
              verified digest (log_all digest after (loaded out.1 s)).0
                  (log_all-IsLinked digest after (loaded out.1 s) again.0),
            ),
          )
