-- ===== src/Security/AuditQuery/Refinement.antt =====
-- security/audit.py: a query by the indexes finds what a scan of all events finds.
use autonomous_rover_swarm_c.Common.{
  String, beq_refl, ℕ, suc, ◌≤◌, Bool, true, false, ◌&&◌, ◌≡◌, refl, sym, ◌∙◌, ap, subst, Option,
  none, some, or_else, List, [], ◌∷◌, ◌++◌, length, take, drop, keep, All, if◌then◌else◌, ◌==◌,
  string_eq, nat_eq, Key, arith, Bool-cases, inl, inr,
}
use autonomous_rover_swarm_c.Common.Errors.{ok}
use autonomous_rover_swarm_c.Common.Dict.{Dict}
use autonomous_rover_swarm_c.Common.Sets.{member}
use autonomous_rover_swarm_c.Common.Floats.{Floats}
use autonomous_rover_swarm_c.Security.AuditEvent.{AuditEvent, HashInput}
use autonomous_rover_swarm_c.Security.AuditEvent.RoundTrip.{action_eq}
use autonomous_rover_swarm_c.Security.AuditLog.{AuditLogger, empty_logger}
use autonomous_rover_swarm_c.Security.AuditLog.Chain.{Call, log_all}
use autonomous_rover_swarm_c.Security.AuditQuery.{
  Conditions, indices, narrow, narrow_by, range, insert_number, sort_numbers, event_at,
  candidate_indices, when_given, wanted, matching_at, latest_first, query_events,
}
use autonomous_rover_swarm_c.Security.AuditQuery.Indexed.{
  positions, length-snoc, IsIndexed, log_all-IsIndexed,
}
use mathlib.Core.List.{append_assoc}

All-weaken : (n : ℕ) (is : List ℕ) → All (λ i. suc n ≤ i) is → All (λ i. n ≤ i) is
All-weaken n [] h = tt
All-weaken n (i ∷ is) h = (ground (arith, h.0), All-weaken n is h.1)

-- What is above `n` is not `n`.
member_above : (n : ℕ) (is : List ℕ) → All (λ i. suc n ≤ i) is → member n is ≡ false
unfolding member
member_above n [] h = refl
member_above n (i ∷ is) h = ground (arith, h.0, member_above n is h.1)

keep_above :
    (n : ℕ) (ps is : List ℕ)
    → All (λ i. suc n ≤ i) is
    → keep (λ i. member i (n ∷ ps)) is ≡ keep (λ i. member i ps) is
unfolding member
keep_above n ps [] h = refl
keep_above n ps (i ∷ is) h = ground (arith, h.0, keep_above n ps is h.1)

-- Two ascending lists from `n` on, cut with each other.
cut_step :
    (b c : Bool) (n : ℕ) (ps qs rs : List ℕ)
    → keep (λ i. member i qs) ps ≡ rs
    → All (λ i. suc n ≤ i) ps
    → member n qs ≡ false
    → keep (λ i. member i (if c then n ∷ qs else qs)) (if b then n ∷ ps else ps)
      ≡ (if b && c then n ∷ rs else rs)
unfolding member
cut_step true true n ps qs rs same above absent =
    ground (arith, keep_above n qs ps above, beq_refl n, same)
cut_step true false n ps qs rs same above absent = rw absent same
cut_step false true n ps qs rs same above absent = keep_above n qs ps above ∙ same
cut_step false false n ps qs rs same above absent = same

insert_number_least : (n : ℕ) (is : List ℕ) → All (λ i. suc n ≤ i) is → insert_number n is ≡ n ∷ is
unfolding insert_number
insert_number_least n [] h = refl
insert_number_least n (i ∷ is) h = ground (arith, h.0)

module _ {ℓ} {A : Type ℓ} where
  positions_above : (p : A → Bool) (n : ℕ) (xs : List A) → All (λ i. n ≤ i) (positions p n xs)
  positions_above p n [] = tt
  positions_above p n (x ∷ xs) =
      let rest = All-weaken n _ (positions_above p (suc n) xs) in
      elim (Bool-cases (p x)) [
        | inl held ↦ rw held (ground arith, rest)
        | inr fails ↦ rw fails rest
      ]

  positions_ext :
      (p q : A → Bool) (n : ℕ) (xs : List A)
      → ((x : A) → p x ≡ q x)
      → positions p n xs ≡ positions q n xs
  positions_ext p q n [] h = refl
  positions_ext p q n (x ∷ xs) h = ground (arith, h x, positions_ext p q (suc n) xs h)

  positions-range : (n : ℕ) (xs : List A) → range n (length xs) ≡ positions (λ x. true) n xs
  positions-range n [] = refl
  positions-range n (x ∷ xs) = ap (λ is. n ∷ is) (positions-range (suc n) xs)

  keep-positions :
      (p q : A → Bool) (n : ℕ) (xs : List A)
      → keep (λ i. member i (positions q n xs)) (positions p n xs)
        ≡ positions (λ x. p x && q x) n xs
  keep-positions p q n [] = refl
  keep-positions p q n (x ∷ xs) =
      cut_step (p x) (q x) n _ _ _ (keep-positions p q (suc n) xs) (positions_above p (suc n) xs)
        (member_above n (positions q (suc n) xs) (positions_above q (suc n) xs))

  sort_numbers-positions :
      (p : A → Bool) (n : ℕ) (xs : List A) → sort_numbers (positions p n xs) ≡ positions p n xs
  unfolding sort_numbers
  sort_numbers-positions p n [] = refl
  sort_numbers-positions p n (x ∷ xs) = ground (
    arith,
    sort_numbers-positions p (suc n) xs,
    insert_number_least n (positions p (suc n) xs) (positions_above p (suc n) xs),
  )

  -- The candidates stand for a test: `none` for one that always holds.
  abbrev Stands : Option (List ℕ) → (A → Bool) → List A → Type ℓ
  Stands o p xs =
      ((x : A) → o ≡ none → p x ≡ true) × ((c : List ℕ) → o ≡ some c → c ≡ positions p 0 xs)

  narrow-Stands :
      (o : Option (List ℕ)) (p q : A → Bool) (xs : List A) (found : List ℕ)
      → Stands o p xs
      → found ≡ positions q 0 xs
      → Stands (narrow o found) (λ x. p x && q x) xs
  narrow-Stands none p q xs found h k = (
    λ x eq. cc,
    λ c eq.
        let same : c ≡ found = ground (arith, eq) in
        same ∙ k ∙ positions_ext q (λ x. p x && q x) 0 xs (λ x. ground (arith, h.0 x refl)),
  )
  narrow-Stands (some c) p q xs found h k = (
    λ x eq. cc,
    λ d eq.
        let same : d ≡ keep (λ i. member i found) c = ground (arith, eq) in
        same ∙ (rw (h.1 c refl) (rw k (keep-positions p q 0 xs))),
  )

  narrow_by-Stands {κ} :
      {K : Type κ} ⦃e : Key K⦄ (k : Option K) (d : Dict K (List ℕ)) (key : A → K)
      (o : Option (List ℕ)) (p : A → Bool) (xs : List A)
      → Stands o p xs
      → ((a : K) → indices a d ≡ positions (λ x. key x == a) 0 xs)
      → Stands (narrow_by k d o) (λ x. p x && when_given (λ a. key x == a) k) xs
  narrow_by-Stands none d key o p xs h known = (
    λ x eq. ground (arith, h.0 x eq),
    λ c eq. h.1 c eq ∙ positions_ext p (λ x. p x && true) 0 xs (λ x. ground arith),
  )
  narrow_by-Stands (some a) d key o p xs h known =
      narrow-Stands o p (λ x. key x == a) xs (indices a d) h (known a)

  or_all-Stands :
      (o : Option (List ℕ)) (p : A → Bool) (xs : List A)
      → Stands o p xs
      → or_else o (range 0 (length xs)) ≡ positions p 0 xs
  or_all-Stands none p xs h =
      positions-range 0 xs ∙ positions_ext (λ x. true) p 0 xs (λ x. sym (h.0 x refl))
  or_all-Stands (some c) p xs h = h.1 c refl

module _ {ℓ} {F D : Type ℓ} where
  event_at-++ :
      (done es : List (AuditEvent F D)) (e : AuditEvent F D)
      → event_at (done ++ (e ∷ es)) (length done) ≡ ok e
  unfolding event_at
  event_at-++ [] es e = refl
  event_at-++ (d ∷ done) es e = event_at-++ done es e

  -- The events that satisfy the conditions on actor, action and resource.
  abbrev keyed : Conditions F → AuditEvent F D → Bool
  keyed q e =
      true
      && when_given (λ a. e.actor == a) q.actor
      && when_given (λ a. e.action == a) q.action
      && when_given (λ a. e.resource == a) q.resource

  candidate_indices-positions :
      (q : Conditions F) (s : AuditLogger F D)
      → IsIndexed s
      → candidate_indices q s ≡ positions (keyed q) 0 s.events
  unfolding candidate_indices
  candidate_indices-positions q s h = or_all-Stands _ (keyed q) s.events (
      narrow_by-Stands q.resource s.events_by_resource (λ e. e.resource) _ _ s.events
        (narrow_by-Stands q.action s.events_by_action (λ e. e.action) _ _ s.events
          (narrow_by-Stands q.actor s.events_by_actor (λ e. e.actor) none (λ e. true) s.events
            (λ e eq. refl, λ c eq. cc) h.0)
          h.1)
        h.2)

  module _ (fl : Floats F) where
    -- All the conditions of a query.
    abbrev pub matches : Conditions F → AuditEvent F D → Bool
    matches q e = keyed q e && wanted fl q e

    matching_at-positions :
        (q : Conditions F) (p : AuditEvent F D → Bool) (done es : List (AuditEvent F D))
        → matching_at fl q (done ++ es) (positions p (length done) es)
          ≡ ok (keep (λ e. p e && wanted fl q e) es)
    unfolding matching_at
    matching_at-positions q p done [] = refl
    matching_at-positions q p done (e ∷ es) =
        let rest : matching_at fl q (done ++ (e ∷ es)) (positions p (suc (length done)) es)
            ≡ ok (keep (λ e. p e && wanted fl q e) es) =
          subst
            (λ n.
              matching_at fl q (done ++ (e ∷ es)) (positions p n es)
              ≡ ok (keep (λ e. p e && wanted fl q e) es))
            (length-snoc done e)
            (subst
              (λ all.
                matching_at fl q all (positions p (length (done ++ (e ∷ []))) es)
                ≡ ok (keep (λ e. p e && wanted fl q e) es))
              (append_assoc done (e ∷ []) es) (matching_at-positions q p (done ++ (e ∷ [])) es)) in
        elim (Bool-cases (p e)) [
          | inl held ↦ rw held (rw (event_at-++ done es e) (rw rest refl))
          | inr fails ↦ rw fails rest
        ]

    -- Of a logger that starts empty and logs any events, a query gives exactly what a scan of the
    -- buffer gives: the events that satisfy all its conditions, the latest first, without the first
    -- `offset` and at most `limit` of the rest. It never asks for an event that is not there.
    pub query_events_by_scan :
        (digest : HashInput F D → String) (max_buffer_size : ℕ) (cs : List (Call F D))
        (q : Conditions F) (limit offset : ℕ)
        → query_events fl q limit offset (log_all digest cs (empty_logger max_buffer_size)).0
          ≡ ok (
              take limit (
                drop offset (
                  latest_first fl (
                    keep (matches q) (log_all digest cs (empty_logger max_buffer_size)).0.events))))
    unfolding query_events
    query_events_by_scan digest max_buffer_size cs q limit offset =
        let s = (log_all digest cs (empty_logger max_buffer_size)).0 in
        let known = candidate_indices-positions q s (log_all-IsIndexed digest max_buffer_size cs) in
        rw known (
          rw (sort_numbers-positions (keyed q) 0 s.events)
            (rw (matching_at-positions q (keyed q) [] s.events) refl))
