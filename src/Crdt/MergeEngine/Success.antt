-- ===== src/Crdt/MergeEngine/Success.antt =====
-- crdt/merge_engine.py: when a merge reports a success.
use autonomous_rover_swarm_c.Common.{
  ℕ, ◌+◌, String, string_eq, Bool, true, false, ◌&&◌, List, [], ◌∷◌, ◌==◌, ◌≡◌, refl, ap, arith,
  ◌∙◌, Bool-cases, inl, inr, ◌⊎◌, if◌then◌else◌,
}
use autonomous_rover_swarm_c.Common.Errors.{
  Error, Result, ok, err, is_ok, attribute_error, crdt_merge_error,
}
use autonomous_rover_swarm_c.Crdt.MergeEngine.{
  MergeEngine, MergeResult, MergeRecord, records, field_object, append, new, reset_conflicts,
  recover, detect_conflict, log_merge, merge,
}

-- The calls that change an engine.
pub data Call {ℓ} (S : Type ℓ) : Type ℓ where
  merges_with : (local remote : S) → Call S
  resets : Call S

-- A result that reports a success.
abbrev pub succeeds : Result MergeResult → Bool
succeeds (ok r) = r.success
succeeds (err e) = false

Result-cases {ℓ} :
    {A : Type ℓ} (r : Result A) → ((a : A) × (r ≡ ok a)) ⊎ ((e : Error) × (r ≡ err e))
Result-cases (ok a) = inl (a, refl)
Result-cases (err e) = inr (e, refl)

recover_fails : (e : Error) (conflicts : ℕ) → succeeds (recover e conflicts) ≡ false
unfolding recover
recover_fails crdt_merge_error conflicts = refl
recover_fails _ conflicts = refl

module _ {ℓ} {S : Type ℓ} (kind_of : S → String) (has_clock : S → Bool)
    (merges : S → S → Result S) where
  unfoldable pub run : List (Call S) → MergeEngine → MergeEngine
  unfolding merge reset_conflicts
  run [] s = s
  run (merges_with local remote ∷ calls) s =
      run calls (merge kind_of has_clock merges local remote s).0
  run (resets ∷ calls) s = run calls (reset_conflicts s)

  log_merge-field :
      (r : MergeRecord) (s : MergeEngine)
      → s.merge_history ≡ field_object
      → ((log_merge kind_of has_clock merges r s).0 ≡ s)
        × (succeeds (log_merge kind_of has_clock merges r s).1 ≡ false)
  unfolding log_merge append
  log_merge-field r s h = rw h (refl, recover_fails attribute_error s.conflict_count)

  log_merge-records :
      (r : MergeRecord) (rs : List MergeRecord) (s : MergeEngine)
      → s.merge_history ≡ records rs
      → succeeds (log_merge kind_of has_clock merges r s).1 ≡ true
  unfolding log_merge append
  log_merge-records r rs s h = rw h refl

  merge-field :
      (local remote : S) (s : MergeEngine)
      → s.merge_history ≡ field_object
      → ((merge kind_of has_clock merges local remote s).0.merge_history ≡ field_object)
        × (succeeds (merge kind_of has_clock merges local remote s).1 ≡ false)
  unfolding merge
  merge-field local remote s h =
      let conflict = detect_conflict kind_of has_clock merges local remote in
      let counted : MergeEngine =
        if conflict then record s { conflict_count = s.conflict_count + 1 } else s in
      let same : counted.merge_history ≡ field_object = ground (arith, h) in
      let r : MergeRecord = record { type_name = kind_of local; conflict = conflict } in
      let logged = log_merge-field r counted same in
      elim (Bool-cases (kind_of local == kind_of remote)) [
        | inr differ ↦ rw differ (h, refl)
        | inl alike ↦ rw alike (elim (Result-cases (merges local remote)) [
          | inl (m, joins) ↦ rw joins (ap (λ t. t.merge_history) logged.0 ∙ same, logged.1)
          | inr (e, fails) ↦ rw fails (h, recover_fails e s.conflict_count)
        ])
      ]

  merge-records :
      (local remote : S) (rs : List MergeRecord) (s : MergeEngine)
      → s.merge_history ≡ records rs
      → succeeds (merge kind_of has_clock merges local remote s).1
        ≡ (kind_of local == kind_of remote && is_ok (merges local remote))
  unfolding merge
  merge-records local remote rs s h =
      let conflict = detect_conflict kind_of has_clock merges local remote in
      let counted : MergeEngine =
        if conflict then record s { conflict_count = s.conflict_count + 1 } else s in
      let same : counted.merge_history ≡ records rs = ground (arith, h) in
      let r : MergeRecord = record { type_name = kind_of local; conflict = conflict } in
      elim (Bool-cases (kind_of local == kind_of remote)) [
        | inr differ ↦ rw differ refl
        | inl alike ↦ rw alike (elim (Result-cases (merges local remote)) [
          | inl (m, joins) ↦ rw joins (log_merge-records r rs counted same)
          | inr (e, fails) ↦ rw fails (recover_fails e s.conflict_count)
        ])
      ]

  run-field :
      (calls : List (Call S)) (s : MergeEngine)
      → s.merge_history ≡ field_object
      → (run calls s).merge_history ≡ field_object
  unfolding run reset_conflicts
  run-field [] s h = h
  run-field (merges_with local remote ∷ calls) s h =
      run-field calls (merge kind_of has_clock merges local remote s).0
        (merge-field local remote s h).0
  run-field (resets ∷ calls) s h = run-field calls (reset_conflicts s) h

  -- Whatever a new engine has merged before, `merge` never reports a success. With a list in the place
  -- of its history it would succeed exactly where the states are of one type and merge without an
  -- error.
  pub merge_never_succeeds :
      (calls : List (Call S)) (local remote : S)
      → let s = run calls new in
        (succeeds (merge kind_of has_clock merges local remote s).1 ≡ false)
        × ((rs : List MergeRecord)
            → succeeds
                (merge kind_of has_clock merges local remote
                  (record s { merge_history = records rs })).1
              ≡ (kind_of local == kind_of remote && is_ok (merges local remote)))
  merge_never_succeeds calls local remote =
      let s = run calls new in
      (
        (merge-field local remote s (run-field calls new refl)).1,
        λ rs. merge-records local remote rs (record s { merge_history = records rs }) refl,
      )
