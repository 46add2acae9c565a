-- ===== src/Crdt/OrSet.antt =====
-- crdt/orset.py: a set with removal. Each addition carries a tag of its own, and a removal names
-- the tags that it has seen; an element is there while one of its tags is not removed.
pub mod Local
pub mod Merge
pub mod Concurrent
use autonomous_rover_swarm_c.Common.{
  ℕ, suc, ◌+◌, String, string_eq, Bool, true, false, not, Option, none, some, or_else, List, [],
  ◌∷◌, Key, length, if◌then◌else◌,
}
use autonomous_rover_swarm_c.Common.Decimal.{tag_of}
use autonomous_rover_swarm_c.Common.Dict.{Dict, lookup, insert, keys, fill}
use autonomous_rover_swarm_c.Common.Sets
use autonomous_rover_swarm_c.Common.Sets.{member, union, difference, update, nonempty}
use autonomous_rover_swarm_c.Crdt.Base.{CrdtDelta}
use autonomous_rover_swarm_c.Crdt.VectorClock
use autonomous_rover_swarm_c.Crdt.VectorClock.{VectorClock}

-- The tags of each element.
abbrev pub Tags {ℓ} : Type ℓ → Type ℓ
Tags A = Dict A (List String)

pub record OrSet {ℓ} (A : Type ℓ) : Type ℓ where
  pub node_id : String
  pub vector_clock : VectorClock
  pub add_set : Tags A
  pub rem_set : Tags A
  pub delta_add : Tags A
  pub delta_rem : Tags A
  pub tag_counter : ℕ

-- The value of a delta: `str(k)` of each element, with its tags.
pub record Change : Type 0 where
  pub add : Tags String
  pub rem : Tags String

module _ {ℓ} {A : Type ℓ} ⦃e : Key A⦄ where
  -- `d.get(element, set())`
  unfoldable pub tags_of : A → Tags A → List String
  tags_of element d = or_else (lookup element d) []

  -- `__init__`
  unfoldable pub new : String → Option VectorClock → OrSet A
  unfolding VectorClock.or_fresh
  new node_id vector_clock = record {
    node_id = node_id;
    vector_clock = VectorClock.or_fresh vector_clock node_id;
    add_set = [];
    rem_set = [];
    delta_add = [];
    delta_rem = [];
    tag_counter = 0;
  }

  -- The loop of `value` over the items of `_add_set`.
  unfoldable pub visible : Tags A → Tags A → List A
  unfolding tags_of
  visible [] rem_set = []
  visible ((elem, tags) ∷ d) rem_set =
      let rest = visible d rem_set in
      if nonempty (difference tags (tags_of elem rem_set)) then Sets.add elem rest else rest

  unfoldable pub value : OrSet A → List A
  unfolding visible
  value s = visible s.add_set s.rem_set

  unfoldable pub contains : A → OrSet A → Bool
  unfolding tags_of
  contains element s = nonempty (difference (tags_of element s.add_set) (tags_of element s.rem_set))

  -- `if element not in d: d[element] = set()`, then `d[element].add(tag)`
  unfoldable pub add_tag : A → String → Tags A → Tags A
  unfolding tags_of
  add_tag element tag d = insert element (Sets.add tag (tags_of element d)) d

  -- The tag is `_next_tag()`.
  unfoldable pub add : A → OrSet A → OrSet A
  unfolding add_tag tag_of VectorClock.tick
  add element s =
      let counter = s.tag_counter + 1 in
      let tag = tag_of s.node_id counter in
      record s {
        tag_counter = counter;
        add_set = add_tag element tag s.add_set;
        delta_add = add_tag element tag s.delta_add;
        vector_clock = (VectorClock.tick none s.vector_clock).0;
      }

  unfoldable pub remove : A → OrSet A → OrSet A
  unfolding tags_of VectorClock.tick
  remove element s =
      let tags = tags_of element s.add_set in
      let removed = tags_of element s.rem_set in
      let new_tags = difference tags removed in
      if not (nonempty tags) then s else if not (nonempty new_tags) then s else record s {
        rem_set = insert element (union removed new_tags) s.rem_set;
        delta_rem = insert element (union (tags_of element s.delta_rem) new_tags) s.delta_rem;
        vector_clock = (VectorClock.tick none s.vector_clock).0;
      }

  -- The loop runs over the elements that either replica has added; the counter starts again.
  unfoldable pub merge : OrSet A → OrSet A → OrSet A
  unfolding tags_of new VectorClock.merge
  merge a b =
      let all_elements = union (keys a.add_set) (keys b.add_set) in
      record (new a.node_id (some (VectorClock.merge a.vector_clock b.vector_clock))) {
        add_set = fill (λ k. union (tags_of k a.add_set) (tags_of k b.add_set)) all_elements [];
        rem_set = fill (λ k. union (tags_of k a.rem_set) (tags_of k b.rem_set)) all_elements [];
      }

  -- `{str(k): list(v) for k, v in d.items()}`, the entries that are made in `made`
  unfoldable pub with_text_keys : (A → String) → Tags A → Tags String → Tags String
  with_text_keys str [] made = made
  with_text_keys str ((k, v) ∷ d) made = with_text_keys str d (insert (str k) v made)

  unfoldable pub delta : (A → String) → OrSet A → CrdtDelta Change
  unfolding with_text_keys VectorClock.items
  delta str s = record {
    value = record {
      add = with_text_keys str s.delta_add [];
      rem = with_text_keys str s.delta_rem [];
    };
    vector_clock = VectorClock.items s.vector_clock;
    source_id = s.node_id;
    timestamp = 0;
  }

  unfoldable pub reset_delta : OrSet A → OrSet A
  reset_delta s = record s { delta_add = []; delta_rem = [] }

  -- `__len__`
  unfoldable pub size : OrSet A → ℕ
  unfolding value
  size s = length (value s)

-- One of the two loops of `apply_delta`.
unfoldable pub absorb_tags : Tags String → Tags String → Tags String
unfolding tags_of
absorb_tags d [] = d
absorb_tags d ((elem, tags) ∷ more) =
    absorb_tags (insert elem (update (tags_of elem d) tags) d) more

-- The elements of a delta are texts, so it is applied to a set of texts. The source merges the
-- clocks and drops the result, so the clock stays as it was.
unfoldable pub apply_delta : CrdtDelta Change → OrSet String → OrSet String
unfolding absorb_tags
apply_delta d s = record s {
  add_set = absorb_tags s.add_set d.value.add;
  rem_set = absorb_tags s.rem_set d.value.rem;
}
