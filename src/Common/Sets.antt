-- ===== src/Common/Sets.antt =====
-- Python's `set`, as a list of its elements. Equality of sets ignores the order, so statements
-- compare `member` at every element; a size is taken of a set whose elements are distinct.
use autonomous_rover_swarm_c.Common.Tests.{if◌then◌else◌, length}
use autonomous_rover_swarm_c.Common.Keys.{Key, ◌==◌, beq_refl}
use Prim.Native.Nat.{suc}
use mathlib.Core.Path.{◌≡◌, refl}
use mathlib.Core.Bool.{Bool, true, false, not, ◌&&◌, ◌||◌}
use mathlib.Core.List.{List, [], ◌∷◌}
use native.Mathlib.Omega.{arith}

module _ {ℓ} {A : Type ℓ} ⦃e : Key A⦄ where
  -- `a in xs`
  unfoldable pub member : A → List A → Bool
  member a [] = false
  member a (x ∷ xs) = a == x || member a xs

  -- `xs.add(a)`
  unfoldable pub add : A → List A → List A
  add a xs = if member a xs then xs else a ∷ xs

  -- `xs | ys`
  unfoldable pub union : List A → List A → List A
  union [] ys = ys
  union (x ∷ xs) ys = add x (union xs ys)

  -- `xs - ys`
  unfoldable pub difference : List A → List A → List A
  difference [] ys = []
  difference (x ∷ xs) ys = let rest = difference xs ys in if member x ys then rest else x ∷ rest

  -- No element is listed twice, so that `length` is the set's size.
  abbrev pub IsDistinct : List A → Type 0
  IsDistinct [] = Unit
  IsDistinct (x ∷ xs) = (member x xs ≡ false) × IsDistinct xs

  abbrev pub SameSet : List A → List A → Type ℓ
  SameSet xs ys = (a : A) → member a xs ≡ member a ys

  pub member-add : (a b : A) (xs : List A) → member b (add a xs) ≡ (b == a || member b xs)
  unfolding add member
  member-add a b xs = ground (arith, e.beq_iff b a, beq_refl b)

  pub member-union :
      (xs ys : List A) (a : A) → member a (union xs ys) ≡ (member a xs || member a ys)
  unfolding union member
  member-union [] ys a = refl
  member-union (x ∷ xs) ys a = ground (arith, member-add x a (union xs ys), member-union xs ys a)

  pub member-difference :
      (xs ys : List A) (a : A) → member a (difference xs ys) ≡ (member a xs && not (member a ys))
  unfolding difference member
  member-difference [] ys a = refl
  member-difference (x ∷ xs) ys a = ground (arith, e.beq_iff a x, member-difference xs ys a)

  -- `bool(xs)`
  abbrev pub nonempty : List A → Bool
  nonempty [] = false
  nonempty (x ∷ xs) = true

  -- `xs.update(ys)`
  unfoldable pub update : List A → List A → List A
  update xs [] = xs
  update xs (y ∷ ys) = update (add y xs) ys

  pub member-update :
      (xs ys : List A) (a : A) → member a (update xs ys) ≡ (member a xs || member a ys)
  unfolding update member
  member-update xs [] a = ground arith
  member-update xs (y ∷ ys) a = ground (arith, member-update (add y xs) ys a, member-add y a xs)

  pub nonempty-Same : (xs ys : List A) → SameSet xs ys → nonempty xs ≡ nonempty ys
  unfolding member
  nonempty-Same [] [] h = refl
  nonempty-Same [] (y ∷ ys) h = ground (arith, h y, beq_refl y)
  nonempty-Same (x ∷ xs) [] h = ground (arith, h x, beq_refl x)
  nonempty-Same (x ∷ xs) (y ∷ ys) h = refl

  pub difference-nonempty :
      (xs ys : List A) → nonempty (difference xs ys) ≡ true → nonempty xs ≡ true
  unfolding difference
  difference-nonempty [] ys h = h
  difference-nonempty (x ∷ xs) ys h = refl

  pub nonempty_of_member : (a : A) (xs : List A) → member a xs ≡ true → nonempty xs ≡ true
  unfolding member
  nonempty_of_member a [] h = cc
  nonempty_of_member a (x ∷ xs) h = refl

  pub member_of_nonempty : (xs : List A) → nonempty xs ≡ true → (a : A) × (member a xs ≡ true)
  unfolding member
  member_of_nonempty [] h = cc
  member_of_nonempty (x ∷ xs) h = (x, ground (arith, beq_refl x))

  -- A set in which nothing is listed is empty.
  pub empty_of_no_member : (xs : List A) → ((a : A) → member a xs ≡ false) → nonempty xs ≡ false
  unfolding member
  empty_of_no_member [] h = refl
  empty_of_no_member (x ∷ xs) h = ground (arith, h x, beq_refl x)

  pub add-IsDistinct : (a : A) (xs : List A) → IsDistinct xs → IsDistinct (add a xs)
  unfolding add
  add-IsDistinct a xs h = ground arith

  pub length-add :
      (a : A) (xs : List A)
      → length (add a xs) ≡ (if member a xs then length xs else suc (length xs))
  unfolding add
  length-add a xs = ground arith

pub ruleset set_laws = (member-add, member-union, member-difference, member-update)
