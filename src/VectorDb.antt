-- ===== src/VectorDb.antt =====
-- vector_db/manager.py: `VectorDbManager`, which routes a search to a backend and falls back to the
-- others. `B` is the type of backends and `R` that of results; `search` is the search of one backend,
-- which may raise.
use autonomous_rover_swarm_c.Common.{
  String, string_eq, Bool, true, false, Option, none, some, or_else, [], ◌∷◌, if◌then◌else◌, ◌==◌,
  ◌≡◌, subst, arith, Bool-cases, inl, inr,
}
use autonomous_rover_swarm_c.Common.Errors.{Result, ok, err, is_ok, vector_db_error}
use autonomous_rover_swarm_c.Common.Dict.{Dict, lookup}
use autonomous_rover_swarm_c.Common.Text.{named}

pub record ManagerConfig : Type 0 where
  pub active_backend : String
  pub fallback_enabled : Bool

module _ {ℓ} {B R : Type ℓ} (search : B → Result R) where
  -- The loop over the other backends: the first that does not raise.
  unfoldable pub try_fallbacks : String → Dict String B → Option R
  try_fallbacks target [] = none
  try_fallbacks target ((name, backend) ∷ more) =
      let rest = try_fallbacks target more in
      if name == target then rest else elim (search backend) [ ok r ↦ some r | err e ↦ rest ]

  abbrev fall_back : Bool → Option R → Result R
  fall_back true (some r) = ok r
  fall_back true none = err vector_db_error
  fall_back false o = err vector_db_error

  unfoldable pub route_search : ManagerConfig → Option String → Dict String B → Result R
  unfolding try_fallbacks
  route_search config backend_name backends =
      let target = or_else (named backend_name) config.active_backend in
      elim (lookup target backends) [
        | none ↦ err vector_db_error
        | some backend ↦ elim (search backend) [
          | ok r ↦ ok r
          | err e ↦ fall_back config.fallback_enabled (try_fallbacks target backends)
        ]
      ]

  -- The results by backend; `no_results` is the empty list, for a backend that raises.
  unfoldable pub search_all : R → Dict String B → Dict String R
  search_all no_results [] = []
  search_all no_results ((name, backend) ∷ more) =
      let rest = search_all no_results more in
      elim (search backend) [ ok r ↦ (name, r) ∷ rest | err e ↦ (name, no_results) ∷ rest ]

  try_fallbacks_finds :
      (target name : String) (backend : B) (backends : Dict String B)
      → lookup name backends ≡ some backend
      → (name == target) ≡ false
      → is_ok (search backend) ≡ true
      → is_ok (fall_back true (try_fallbacks target backends)) ≡ true
  unfolding try_fallbacks lookup
  try_fallbacks_finds target name backend [] found other answers = ground (arith, found)
  try_fallbacks_finds target name backend ((n, b) ∷ more) found other answers = ground (
    arith,
    found,
    other,
    answers,
    string_eq.beq_iff n name,
    string_eq.beq_iff n target,
    string_eq.beq_iff name target,
    try_fallbacks_finds target name backend more,
  )

  -- If the backend that a search is for is registered and falling back is enabled, the search succeeds
  -- as soon as any registered backend answers.
  pub route_search_answers :
      (config : ManagerConfig) (backend_name : Option String) (backends : Dict String B)
      (name : String) (backend first : B)
      → lookup (or_else (named backend_name) config.active_backend) backends ≡ some first
      → config.fallback_enabled ≡ true
      → lookup name backends ≡ some backend
      → is_ok (search backend) ≡ true
      → is_ok (route_search config backend_name backends) ≡ true
  unfolding route_search
  route_search_answers config backend_name backends name backend first registered enabled found
        answers =
      let target = or_else (named backend_name) config.active_backend in
      elim (Bool-cases (name == target)) [
        | inl same ↦
            let first_answers : is_ok (search first) ≡ true = ground (
              arith,
              registered,
              subst (λ n. lookup n backends ≡ some backend) ((string_eq.beq_iff name target).0 same)
                  found,
              answers,
            ) in
            ground (arith, registered, first_answers)
        | inr other ↦ ground (
          arith,
          registered,
          enabled,
          try_fallbacks_finds target name backend backends found other answers,
        )
      ]
