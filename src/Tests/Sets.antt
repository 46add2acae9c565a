-- ===== src/Tests/Sets.antt =====
-- Sets of samples on the rovers "alpha" and "beta"; a sample is a text.
use autonomous_rover_swarm_c.Tests.{swap}
use autonomous_rover_swarm_c.Common.{
  ℕ, suc, ◌<◌, ◌≡◌, refl, true, false, ◌||◌, foldl, [], ◌∷◌, none, String, string_eq, if◌then◌else◌,
  ◌==◌,
}
use autonomous_rover_swarm_c.Common.Decimal.{tag_of}
use autonomous_rover_swarm_c.Common.Dict
use autonomous_rover_swarm_c.Common.Dict.{lookup}
use autonomous_rover_swarm_c.Common.Sets
use autonomous_rover_swarm_c.Common.Sets.{member, IsDistinct}
use autonomous_rover_swarm_c.Crdt.GSet
use autonomous_rover_swarm_c.Crdt.GSet.{GSet}
use autonomous_rover_swarm_c.Crdt.GSet.Laws.{add-contains, sets_converge}
use autonomous_rover_swarm_c.Crdt.OrSet
use autonomous_rover_swarm_c.Crdt.OrSet.{OrSet, tags_of, contains, add, remove, merge}
use autonomous_rover_swarm_c.Crdt.OrSet.Local.{new-IsFresh, contains-add, contains-remove}
use autonomous_rover_swarm_c.Crdt.OrSet.Merge.{IsObserved, orsets_converge}
use autonomous_rover_swarm_c.Crdt.OrSet.Concurrent.{
  add-IsObserved, remove-IsObserved, add_wins, merge_forgets_counter, early_removal_is_lost,
}

abbrev basalt : String
basalt = "basalt"

abbrev quartz : String
quartz = "quartz"

abbrev rocks : GSet String
rocks = GSet.add "basalt" (GSet.new [] "alpha" none)

abbrev sand : GSet String
sand = GSet.add "quartz" (GSet.new [] "beta" none)

add-contains_example :
    (GSet.contains "quartz" (GSet.add "basalt" sand)
      ≡ (quartz == basalt || GSet.contains "quartz" sand))
    × (GSet.size (GSet.add "basalt" sand)
        ≡ (if GSet.contains "basalt" sand then GSet.size sand else suc (GSet.size sand)))
add-contains_example = add-contains "basalt" "quartz" sand

sets_converge_example :
    GSet.contains "quartz" (foldl GSet.merge rocks (sand ∷ []))
    ≡ GSet.contains "quartz" (foldl GSet.merge sand (rocks ∷ []))
sets_converge_example =
    sets_converge rocks sand (sand ∷ []) (rocks ∷ []) (λ g m. swap m) (λ g m. swap m) "quartz"

rocks_delta : (a : String) → GSet.contains a rocks ≡ member a rocks.delta_elements
rocks_delta a = unfold GSet.contains GSet.add GSet.new member in refl

abbrev empty : String → OrSet String
empty node = OrSet.new node none

empty-IsObserved : (node : String) → IsObserved (empty node)
unfolding OrSet.new tags_of lookup member
empty-IsObserved node x tag h = refl

-- "alpha" has seen basalt; "beta" has seen it and removed it.
abbrev seen : OrSet String
seen = add "basalt" (empty "alpha")

abbrev removed : OrSet String
removed = remove "basalt" (add "basalt" (empty "beta"))

seen-IsObserved : IsObserved seen
seen-IsObserved = add-IsObserved "basalt" (empty "alpha") (empty-IsObserved "alpha")

removed-IsObserved : IsObserved removed
removed-IsObserved =
    remove-IsObserved "basalt" (add "basalt" (empty "beta"))
      (add-IsObserved "basalt" (empty "beta") (empty-IsObserved "beta"))

orsets_converge_example :
    contains "basalt" (foldl merge seen (removed ∷ []))
    ≡ contains "basalt" (foldl merge removed (seen ∷ []))
orsets_converge_example =
    orsets_converge seen removed (removed ∷ []) (seen ∷ []) seen-IsObserved (removed-IsObserved, tt)
      removed-IsObserved (seen-IsObserved, tt) (λ g m. swap m) (λ g m. swap m) "basalt"

seen_once : IsDistinct (Dict.keys seen.add_set)
seen_once = unfold add OrSet.add_tag OrSet.new Dict.insert Dict.keys member in (refl, tt)

-- No tag of "alpha" is removed where nothing is removed.
unseen_there :
    (n : ℕ) → 0 < n → member (tag_of "alpha" n) (tags_of "basalt" (empty "beta").rem_set) ≡ false
unfolding OrSet.new tags_of lookup member
unseen_there n h = refl

add_wins_example :
    (contains "basalt" (merge (add "basalt" (empty "alpha")) (empty "beta")) ≡ true)
    × (contains "basalt" (merge (empty "beta") (add "basalt" (empty "alpha"))) ≡ true)
unfolding OrSet.new
add_wins_example =
    add_wins "basalt" (empty "alpha") (empty "beta") (empty-IsObserved "alpha")
      (empty-IsObserved "beta") (new-IsFresh "alpha") unseen_there

-- "alpha" added basalt under its first tag, and removed it.
abbrev gone : OrSet String
gone = remove "basalt" seen

first_tag : member (tag_of "alpha" 1) (tags_of "basalt" gone.add_set) ≡ true
unfolding OrSet.new add OrSet.add_tag remove tags_of lookup Dict.insert member tag_of Sets.add
    Sets.difference
first_tag = refl

merge_forgets_counter_example : contains "basalt" (add "basalt" (merge gone gone)) ≡ false
unfolding remove lookup add Dict.insert member OrSet.new Sets.add Sets.difference
merge_forgets_counter_example =
    merge_forgets_counter "basalt" gone gone (contains-remove "basalt" "basalt" seen)
      (contains-remove "basalt" "basalt" seen) first_tag

-- The removal of basalt arrived at "beta" by a delta, ahead of the addition.
abbrev ahead : OrSet String
ahead = record (empty "beta") { rem_set = ("basalt", tag_of "alpha" 1 ∷ []) ∷ [] }

ahead_knows :
    (tag : String)
    → member tag (tags_of "basalt" seen.add_set) ≡ true
    → member tag (tags_of "basalt" ahead.rem_set) ≡ true
unfolding OrSet.new add OrSet.add_tag tags_of lookup Dict.insert member Sets.add
ahead_knows tag h = h

nothing_seen : (node : String) → lookup "basalt" (empty node).add_set ≡ none
unfolding OrSet.new lookup
nothing_seen node = refl

early_removal_is_lost_example :
    (contains "basalt" (merge (merge ahead (empty "gamma")) seen) ≡ true)
    × (contains "basalt" (merge ahead (merge (empty "gamma") seen)) ≡ false)
early_removal_is_lost_example =
    early_removal_is_lost "basalt" seen ahead (empty "gamma")
      (contains-add "basalt" "basalt" (empty "alpha") (new-IsFresh "alpha")) (nothing_seen "beta")
      (nothing_seen "gamma") ahead_knows
