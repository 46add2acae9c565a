-- ===== src/Crdt/MergeEngine.antt =====
-- crdt/merge_engine.py: `MergeEngine`. `S` is the type of states and `merges` the `merge` of a state,
-- which may raise; `kind_of` is `type(...)`, and `has_clock` the test for a clock.
pub mod Success
use autonomous_rover_swarm_c.Common.{
  ℕ, ◌+◌, String, string_eq, Bool, true, false, not, ◌&&◌, List, [], ◌∷◌, ◌++◌, if◌then◌else◌, ◌==◌,
}
use autonomous_rover_swarm_c.Common.Errors.{
  Error, Result, ok, err, attribute_error, type_error, crdt_merge_error,
}

-- The result, without its message.
pub record MergeResult : Type 0 where
  pub success : Bool
  pub conflict_count : ℕ

-- `{"type": ..., "conflict": ...}`
pub record MergeRecord : Type 0 where
  pub type_name : String
  pub conflict : Bool

-- What `_merge_history` can be: a list, or the `Field` that `dataclasses.field(...)` returns, which
-- is no list.
pub data History : Type 0 where
  records : List MergeRecord → History
  field_object : History

-- `h.append(r)`: a `Field` has no such attribute.
unfoldable pub append : MergeRecord → History → Result History
append r (records rs) = ok (records (rs ++ (r ∷ [])))
append r field_object = err attribute_error

pub record MergeEngine : Type 0 where
  pub conflict_count : ℕ
  pub merge_history : History

-- `__init__`: the class is no dataclass, so the `Field` stays.
abbrev pub new : MergeEngine
new = record { conflict_count = 0; merge_history = field_object }

-- `list(self._merge_history)`: a `Field` cannot be iterated over.
unfoldable pub merge_history : MergeEngine → Result (List MergeRecord)
merge_history s = elim s.merge_history [ records rs ↦ ok rs | field_object ↦ err type_error ]

unfoldable pub reset_conflicts : MergeEngine → MergeEngine
reset_conflicts s = record s { conflict_count = 0 }

-- `except CrdtMergeError`: any other error is not caught.
unfoldable pub recover : Error → ℕ → Result MergeResult
recover crdt_merge_error conflicts = ok (record { success = false; conflict_count = conflicts })
recover e conflicts = err e

module _ {ℓ} {S : Type ℓ} (kind_of : S → String) (has_clock : S → Bool)
    (merges : S → S → Result S) where
  unfoldable pub detect_conflict : S → S → Bool
  detect_conflict local remote = has_clock local && has_clock remote

  -- The rest of the `try` block, after the states have merged; `s` counts the conflict, if there is one.
  unfoldable pub log_merge : MergeRecord → MergeEngine → MergeEngine × Result MergeResult
  unfolding append recover
  log_merge r s = elim (append r s.merge_history) [
    | ok h ↦ (
      record s { merge_history = h },
      ok (record { success = true; conflict_count = s.conflict_count }),
    )
    | err e ↦ (s, recover e s.conflict_count)
  ]

  -- The engine after the call, and its result; the merged state is not kept.
  unfoldable pub merge : S → S → MergeEngine → MergeEngine × Result MergeResult
  unfolding detect_conflict log_merge recover
  merge local remote s =
      let conflict = detect_conflict local remote in
      let counted = if conflict then record s { conflict_count = s.conflict_count + 1 } else s in
      if not (kind_of local == kind_of remote)
      then (s, ok (record { success = false; conflict_count = 0 }))
      else elim (merges local remote) [
        | ok merged ↦ log_merge (record { type_name = kind_of local; conflict = conflict }) counted
        | err e ↦ (s, recover e s.conflict_count)
      ]
