-- ===== src/Crdt/MvReg.antt =====
-- crdt/mvreg.py: a register that keeps every value of concurrent writes, each under a tag and with
-- the clock of its write.
pub mod Prune
use autonomous_rover_swarm_c.Common.{
  ℕ, String, string_eq, Bool, true, false, not, ◌&&◌, ◌||◌, Option, none, some, is_some, List, [],
  ◌∷◌, ltb, eqb, length, if◌then◌else◌, ◌==◌,
}
use autonomous_rover_swarm_c.Common.Decimal.{tag_of}
use autonomous_rover_swarm_c.Common.Errors.{Result, ok, err, key_error, ◌>>=◌}
use autonomous_rover_swarm_c.Common.Dict
use autonomous_rover_swarm_c.Common.Dict.{Dict, lookup, insert, keys, values, fill_some}
use autonomous_rover_swarm_c.Common.Sets.{union}
use autonomous_rover_swarm_c.Crdt.Base.{CrdtDelta}
use autonomous_rover_swarm_c.Crdt.VectorClock
use autonomous_rover_swarm_c.Crdt.VectorClock.{VectorClock, happens_before, concurrent}

pub record MvReg {ℓ} (V : Type ℓ) : Type ℓ where
  pub node_id : String
  pub vector_clock : VectorClock
  pub entries : Dict String (V × VectorClock)

-- `a < b` on Python's lists of numbers
unfoldable pub list_ltb : List ℕ → List ℕ → Bool
list_ltb xs [] = false
list_ltb [] (y ∷ ys) = true
list_ltb (x ∷ xs) (y ∷ ys) =
    let rest = list_ltb xs ys in if ltb x y then true else if eqb x y then rest else false

-- `list(vc.clocks.values())`
abbrev pub counts : VectorClock → List ℕ
counts c = values c.clocks

-- Every entry of the first dictionary is one of the second.
unfoldable pub entries_in : Dict String ℕ → Dict String ℕ → Bool
entries_in [] b = true
entries_in ((k, n) ∷ a) b =
    let rest = entries_in a b in
    elim (lookup k b) [ none ↦ false | some m ↦ if eqb n m then rest else false ]

-- `vc == max_vc` compares the fields.
unfoldable pub same_clock : VectorClock → VectorClock → Bool
unfolding entries_in
same_clock a b =
    a.node_id == b.node_id
    && eqb (length a.clocks) (length b.clocks)
    && entries_in a.clocks b.clocks

module _ {ℓ} {V : Type ℓ} where
  -- `__init__`
  unfoldable pub new : String → Option VectorClock → MvReg V
  unfolding VectorClock.or_fresh
  new node_id vector_clock = record {
    node_id = node_id;
    vector_clock = VectorClock.or_fresh vector_clock node_id;
    entries = [];
  }

  -- `max(..., key=...)`: the first of the largest; `best` is the largest so far.
  unfoldable pub largest : VectorClock → List (V × VectorClock) → VectorClock
  unfolding list_ltb
  largest best [] = best
  largest best ((v, c) ∷ es) =
      let larger = largest c es in
      let same = largest best es in if list_ltb (counts best) (counts c) then larger else same

  unfoldable pub beside : VectorClock → List (V × VectorClock) → List V
  unfolding same_clock concurrent
  beside top [] = []
  beside top ((v, c) ∷ es) =
      let rest = beside top es in if concurrent c top || same_clock c top then v ∷ rest else rest

  unfoldable pub value_of : List (V × VectorClock) → List V
  unfolding largest beside
  value_of [] = []
  value_of ((v, c) ∷ es) = beside (largest c es) ((v, c) ∷ es)

  unfoldable pub value : MvReg V → List V
  unfolding value_of
  value r = value_of (values r.entries)

  -- The clock ticks twice: the tag has the first count, the stored clock the second.
  unfoldable pub write : V → MvReg V → MvReg V
  unfolding tag_of VectorClock.tick
  write value r =
      let (first, count) = VectorClock.tick none r.vector_clock in
      let second = (VectorClock.tick none first).0 in
      record r {
        vector_clock = second;
        entries = insert (tag_of r.node_id count) (value, VectorClock.copy second) r.entries;
      }

  -- The inner loop of `_prune_ancestors`, which leaves at the first later clock. A tag that is gone
  -- raises.
  unfoldable pub prune_from :
      String → List String → Dict String (V × VectorClock) → Result (Dict String (V × VectorClock))
  unfolding happens_before
  prune_from t1 [] d = ok d
  prune_from t1 (t2 ∷ ts) d =
      let dropped = prune_from t1 ts (Dict.remove t2 d) in
      let kept = prune_from t1 ts d in
      elim (lookup t1 d) [
        | none ↦ err key_error
        | some (v1, c1) ↦ elim (lookup t2 d) [
          | none ↦ err key_error
          | some (v2, c2) ↦
              if happens_before c1 c2
              then ok (Dict.remove t1 d)
              else if happens_before c2 c1
              then dropped
              else kept
        ]
      ]

  -- The outer loop, over the tags as they were at the start.
  unfoldable pub prune_each :
      List String → Dict String (V × VectorClock) → Result (Dict String (V × VectorClock))
  unfolding prune_from
  prune_each [] d = ok d
  prune_each (t1 ∷ ts) d = prune_from t1 ts d >>= prune_each ts

  unfoldable pub prune_ancestors : MvReg V → Result (MvReg V)
  unfolding prune_each
  prune_ancestors r = prune_each (keys r.entries) r.entries >>= λ d. ok (record r { entries = d })

  -- The body of the loop in `merge`: of two entries the one with the larger counts.
  unfoldable pub merge_entry :
      Option (V × VectorClock) → Option (V × VectorClock) → Option (V × VectorClock)
  unfolding list_ltb
  merge_entry none b = b
  merge_entry (some a) none = some a
  merge_entry (some a) (some b) =
      if not (list_ltb (counts a.1) (counts b.1)) then some a else some b

  unfoldable pub merge : MvReg V → MvReg V → Result (MvReg V)
  unfolding new VectorClock.merge merge_entry prune_ancestors
  merge a b =
      prune_ancestors
        (record (new a.node_id (some (VectorClock.merge a.vector_clock b.vector_clock))) {
          entries =
              fill_some (λ tag. merge_entry (lookup tag a.entries) (lookup tag b.entries))
                (union (keys a.entries) (keys b.entries)) [];
        })

  abbrev plain : Dict String (V × VectorClock) → Dict String V
  plain [] = []
  plain ((tag, e) ∷ d) = (tag, e.0) ∷ plain d

  unfoldable pub delta : MvReg V → CrdtDelta (Dict String V)
  unfolding VectorClock.items
  delta r = record {
    value = plain r.entries;
    vector_clock = VectorClock.items r.vector_clock;
    source_id = r.node_id;
    timestamp = 0;
  }

  -- The loop of `apply_delta`: a tag that is there stays.
  unfoldable pub take_in :
      VectorClock → Dict String V → Dict String (V × VectorClock) → Dict String (V × VectorClock)
  take_in clock [] d = d
  take_in clock ((tag, v) ∷ more) d =
      take_in clock more (if is_some (lookup tag d) then d else insert tag (v, clock) d)

  -- The source merges the clocks and drops the result, so the clock stays as it was.
  unfoldable pub apply_delta : CrdtDelta (Dict String V) → MvReg V → Result (MvReg V)
  unfolding take_in prune_ancestors
  apply_delta dl r =
      let incoming = VectorClock.from_dict dl.vector_clock dl.source_id in
      prune_ancestors (record r { entries = take_in incoming dl.value r.entries })

  -- `reset_delta` does nothing.
  abbrev pub reset_delta : MvReg V → MvReg V
  reset_delta r = r
