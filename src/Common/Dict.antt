-- ===== src/Common/Dict.antt =====
-- Python's `dict`: an association list in insertion order. Equality of dictionaries ignores the
-- order, so statements compare `lookup` at every key.
use autonomous_rover_swarm_c.Common.Tests.{if◌then◌else◌, is_some, Bool-cases}
use autonomous_rover_swarm_c.Common.Keys.{Key, ◌==◌, beq_refl}
use autonomous_rover_swarm_c.Common.Sets.{member}
use mathlib.Core.Path.{◌≡◌, refl, ap, subst}
use mathlib.Core.Logic.{inl, inr}
use mathlib.Core.Option.{Option, none, some}
use mathlib.Core.List.{List, [], ◌∷◌}
use native.Mathlib.Omega.{arith}

abbrev pub Dict {ℓ κ} : Type ℓ → Type κ → Type (ℓ ⊔ κ)
Dict K V = List (K × V)

-- `a or b`, for values that are never false
abbrev pub first_some {ℓ} : {V : Type ℓ} → Option V → Option V → Option V
first_some none o = o
first_some (some v) o = some v

module _ {ℓ κ} {K : Type ℓ} {V : Type κ} ⦃e : Key K⦄ where
  -- `d.get(k)`
  unfoldable pub lookup : K → Dict K V → Option V
  lookup k [] = none
  lookup k ((j, v) ∷ d) = if j == k then some v else lookup k d

  -- `d[k] = v`: an old key keeps its place
  unfoldable pub insert : K → V → Dict K V → Dict K V
  insert k v [] = (k, v) ∷ []
  insert k v ((j, w) ∷ d) = if j == k then (j, v) ∷ d else (j, w) ∷ insert k v d

  -- `d.pop(k, None)`
  unfoldable pub remove : K → Dict K V → Dict K V
  remove k [] = []
  remove k ((j, w) ∷ d) = let rest = remove k d in if j == k then rest else (j, w) ∷ rest

  -- `d.keys()`
  unfoldable pub keys : Dict K V → List K
  keys [] = []
  keys ((j, w) ∷ d) = j ∷ keys d

  -- `d.values()`
  unfoldable pub values : Dict K V → List V
  values [] = []
  values ((j, w) ∷ d) = w ∷ values d

  pub lookup-insert :
      (k j : K) (v : V) (d : Dict K V)
      → lookup j (insert k v d) ≡ (if k == j then some v else lookup j d)
  unfolding lookup insert
  lookup-insert k j v [] = refl
  lookup-insert k j v ((i, w) ∷ d) =
      ground (arith, e.beq_iff k j, e.beq_iff i k, e.beq_iff i j, lookup-insert k j v d)

  pub lookup-remove :
      (k j : K) (d : Dict K V) → lookup j (remove k d) ≡ (if k == j then none else lookup j d)
  unfolding lookup remove
  lookup-remove k j [] = ground arith
  lookup-remove k j ((i, w) ∷ d) =
      ground (arith, e.beq_iff k j, e.beq_iff i k, e.beq_iff i j, lookup-remove k j d)

  pub lookup-insert_self : (k : K) (v : V) (d : Dict K V) → lookup k (insert k v d) ≡ some v
  lookup-insert_self k v d = simp (lookup-insert, beq_refl)

  -- `for k in ks: d[k] = f(k)`
  unfoldable pub fill : (K → V) → List K → Dict K V → Dict K V
  fill f [] d = d
  fill f (k ∷ ks) d = fill f ks (insert k (f k) d)

  pub lookup-fill :
      (f : K → V) (ks : List K) (d : Dict K V) (j : K)
      → lookup j (fill f ks d) ≡ (if member j ks then some (f j) else lookup j d)
  unfolding fill member
  lookup-fill f [] d j = refl
  lookup-fill f (k ∷ ks) d j = ground (
    arith,
    e.beq_iff j k,
    e.beq_iff k j,
    lookup-fill f ks (insert k (f k) d) j,
    lookup-insert k j (f k) d,
  )

  pub member-keys : (k : K) (d : Dict K V) → member k (keys d) ≡ is_some (lookup k d)
  unfolding keys member lookup
  member-keys k [] = refl
  member-keys k ((j, w) ∷ d) = ground (arith, e.beq_iff k j, e.beq_iff j k, member-keys k d)

  -- `for k in ks: if f(k) is there: d[k] = f(k)`
  abbrev put_if : K → Option V → Dict K V → Dict K V
  put_if k none d = d
  put_if k (some v) d = insert k v d

  unfoldable pub fill_some : (K → Option V) → List K → Dict K V → Dict K V
  fill_some f [] d = d
  fill_some f (k ∷ ks) d = fill_some f ks (put_if k (f k) d)

  lookup-put_if :
      (k j : K) (o : Option V) (d : Dict K V)
      → lookup j (put_if k o d) ≡ (if k == j then first_some o (lookup j d) else lookup j d)
  lookup-put_if k j none d = ground arith
  lookup-put_if k j (some v) d = lookup-insert k j v d

  pub lookup-fill_some :
      (f : K → Option V) (ks : List K) (d : Dict K V) (j : K)
      → lookup j (fill_some f ks d)
        ≡ (if member j ks then first_some (f j) (lookup j d) else lookup j d)
  unfolding fill_some member
  lookup-fill_some f [] d j = refl
  lookup-fill_some f (k ∷ ks) d j = elim (Bool-cases (k == j)) [
    | inl same ↦
        let p = (e.beq_iff k j).0 same in
        ground (
          arith,
          p,
          e.beq_iff j k,
          ap f p,
          lookup-fill_some f ks (put_if k (f k) d) j,
          lookup-put_if k j (f k) d,
        )
    | inr other ↦ ground (
      arith,
      other,
      e.beq_iff j k,
      e.beq_iff k j,
      lookup-fill_some f ks (put_if k (f k) d) j,
      lookup-put_if k j (f k) d,
    )
  ]

module _ {ℓ κ μ} {K : Type ℓ} {V : Type κ} ⦃e : Key K⦄ (P : V → Type μ) where
  -- Every value of a dictionary has the property.
  abbrev pub Each : Dict K V → Type μ
  Each [] = Unit
  Each ((j, v) ∷ d) = P v × Each d

  pub insert-Each : (k : K) (v : V) (d : Dict K V) → P v → Each d → Each (insert k v d)
  unfolding insert
  insert-Each k v [] h hs = (h, hs)
  insert-Each k v ((j, w) ∷ d) h hs = elim (Bool-cases (j == k)) [
    | inl same ↦ rw same (h, hs.1)
    | inr other ↦ rw other (hs.0, insert-Each k v d h hs.1)
  ]

  pub lookup-Each : (k : K) (v : V) (d : Dict K V) → Each d → lookup k d ≡ some v → P v
  unfolding lookup
  lookup-Each k v [] hs found = ground arith
  lookup-Each k v ((j, w) ∷ d) hs found = elim (Bool-cases (j == k)) [
    | inl same ↦ subst P (ground arith) hs.0
    | inr other ↦ lookup-Each k v d hs.1 (ground arith)
  ]
