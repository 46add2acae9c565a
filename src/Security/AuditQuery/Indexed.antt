-- ===== src/Security/AuditQuery/Indexed.antt =====
-- security/audit.py: the indexes of the log, through logging and trimming, and what a query by them
-- finds.
use autonomous_rover_swarm_c.Common.{
  ℕ, suc, ◌+◌, ◌-◌, ◌*◌, Bool-cases, inl, inr, String, string_eq, Bool, ◌≡◌, refl, sym, ap, subst,
  List, [], ◌∷◌, ◌++◌, ltb, leb, length, drop, if◌then◌else◌, ◌==◌, nat_eq, Key, arith,
}
use autonomous_rover_swarm_c.Common.Dict.{Dict, lookup, lookup-insert}
use autonomous_rover_swarm_c.Security.AuditEvent.{AuditAction, AuditEvent, HashInput}
use autonomous_rover_swarm_c.Security.AuditEvent.RoundTrip.{action_eq, result_eq}
use autonomous_rover_swarm_c.Security.AuditLog.{
  AuditLogger, empty_logger, push, index_event, append_event, index_all, cleared, trim_buffer,
  make_event, log_event,
}
use autonomous_rover_swarm_c.Security.AuditLog.Chain.{Call, log_all, events-index_all}
use mathlib.Core.List.{append-nil, append_assoc}
use autonomous_rover_swarm_c.Security.AuditQuery.{indices}

indices-push {ℓ} :
    {K : Type ℓ} ⦃k : Key K⦄ (a b : K) (idx : ℕ) (d : Dict K (List ℕ))
    → indices a (push b idx d) ≡ (if b == a then indices a d ++ (idx ∷ []) else indices a d)
unfolding push
indices-push ⦃k⦄ a b idx d =
    ground (arith, lookup-insert b a (indices b d ++ (idx ∷ [])) d, k.beq_iff b a)

-- The numbers, from `idx` on, of the entries for which the test holds.
abbrev pub positions {ℓ} : {A : Type ℓ} → (A → Bool) → ℕ → List A → List ℕ
positions test idx [] = []
positions test idx (x ∷ xs) =
    let rest = positions test (suc idx) xs in if test x then idx ∷ rest else rest

positions-++ {ℓ} :
    {A : Type ℓ} (test : A → Bool) (idx : ℕ) (xs : List A) (x : A)
    → positions test idx (xs ++ (x ∷ [])) ≡ (
        if test x then positions test idx xs ++ ((idx + length xs) ∷ []) else positions test idx xs)
positions-++ test idx [] x = ground arith
positions-++ test idx (y ∷ ys) x = ground (arith, positions-++ test (suc idx) ys x)

pub length-snoc {ℓ} : {A : Type ℓ} (xs : List A) (x : A) → length (xs ++ (x ∷ [])) ≡ suc (length xs)
length-snoc [] x = refl
length-snoc (y ∷ ys) x = ap suc (length-snoc ys x)

module _ {ℓ} {F D : Type ℓ} where
  -- Each index lists the numbers of these events with its key, in their order.
  abbrev pub Indexes : List (AuditEvent F D) → AuditLogger F D → Type 0
  Indexes es s =
      ((a : String) → indices a s.events_by_actor ≡ positions (λ e. e.actor == a) 0 es)
      × ((a : AuditAction) → indices a s.events_by_action ≡ positions (λ e. e.action == a) 0 es)
      × ((a : String) → indices a s.events_by_resource ≡ positions (λ e. e.resource == a) 0 es)

  abbrev pub IsIndexed : AuditLogger F D → Type 0
  IsIndexed s = Indexes s.events s

  index_event-Indexes :
      (e : AuditEvent F D) (es : List (AuditEvent F D)) (s : AuditLogger F D)
      → Indexes es s
      → Indexes (es ++ (e ∷ [])) (index_event (length es) e s)
  unfolding index_event
  index_event-Indexes e es s h = (
    λ a. ground (
      arith,
      positions-++ (λ d. d.actor == a) 0 es e,
      h.0 a,
      indices-push a e.actor (length es) s.events_by_actor,
    ),
    λ a. ground (
      arith,
      positions-++ (λ d. d.action == a) 0 es e,
      h.1 a,
      indices-push a e.action (length es) s.events_by_action,
    ),
    λ a. ground (
      arith,
      positions-++ (λ d. d.resource == a) 0 es e,
      h.2 a,
      indices-push a e.resource (length es) s.events_by_resource,
    ),
  )

  index_all-Indexes :
      (es done : List (AuditEvent F D)) (s : AuditLogger F D)
      → Indexes done s
      → Indexes (done ++ es) (index_all (length done) es s)
  unfolding index_all
  index_all-Indexes [] done s h = rw (append-nil done) h
  index_all-Indexes (e ∷ es) done s h =
      let step =
        index_all-Indexes es (done ++ (e ∷ [])) (index_event (length done) e s)
          (index_event-Indexes e done s h) in
      rw (sym (append_assoc done (e ∷ []) es)) (
        subst
          (λ n. Indexes (done ++ (e ∷ []) ++ es) (index_all n es (index_event (length done) e s)))
          (length-snoc done e) step)

  trim_buffer-IsIndexed : (s : AuditLogger F D) → IsIndexed s → IsIndexed (trim_buffer s)
  unfolding trim_buffer lookup
  trim_buffer-IsIndexed s h = elim (Bool-cases (leb (length s.events) s.max_buffer_size)) [
    | inl small ↦ rw small h
    | inr large ↦
        let kept = drop (length s.events - s.max_buffer_size) s.events in
        let done = index_all-Indexes kept [] (cleared kept s) (λ a. refl, λ a. refl, λ a. refl) in
        rw large (rw (events-index_all 0 kept (cleared kept s)).0 done)
  ]

  module _ (digest : HashInput F D → String) where
    log_event-IsIndexed :
        (c : Call F D) (s : AuditLogger F D)
        → IsIndexed s
        → IsIndexed (log_event digest c.now c.event_id c.entry s).0
    unfolding log_event append_event index_event
    log_event-IsIndexed c s h =
        let event = make_event digest c.now c.event_id c.entry s.last_hash in
        let grown = append_event event s in
        let indexed : IsIndexed grown = index_event-Indexes event s.events s h in
        elim (Bool-cases (ltb (s.max_buffer_size * 2) (length grown.events))) [
          | inl full ↦ rw full (trim_buffer-IsIndexed grown indexed)
          | inr room ↦ rw room indexed
        ]

    log_all_keeps-Indexed :
        (cs : List (Call F D)) (s : AuditLogger F D)
        → IsIndexed s
        → IsIndexed (log_all digest cs s).0
    unfolding log_all
    log_all_keeps-Indexed [] s h = h
    log_all_keeps-Indexed (c ∷ cs) s h =
        log_all_keeps-Indexed cs (log_event digest c.now c.event_id c.entry s).0
          (log_event-IsIndexed c s h)

    -- In a logger that starts empty and logs any events, each of the three indexes lists, for every
    -- actor, action and resource, the numbers of exactly the events in the buffer with it, in their
    -- order; trimming the buffer keeps it so.
    pub log_all-IsIndexed :
        (max_buffer_size : ℕ) (cs : List (Call F D))
        → IsIndexed (log_all digest cs (empty_logger max_buffer_size)).0
    unfolding lookup
    log_all-IsIndexed max_buffer_size cs =
        log_all_keeps-Indexed cs (empty_logger max_buffer_size) (λ a. refl, λ a. refl, λ a. refl)
