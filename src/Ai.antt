-- ===== src/Ai.antt =====
-- ai/engine_manager.py: `EngineManager`, which routes a request along a chain of engines. `E` is the
-- type of engines and `R` that of answers; `ask` is the call of one engine (`infer` or `embed`), which
-- may raise, and `truthy` the test of its answer. The engines that `initialize` registers are a
-- parameter.
use autonomous_rover_swarm_c.Common.{
  String, string_eq, Bool, true, false, not, ◌||◌, Option, none, some, or_else, is_some, List, [],
  ◌∷◌, keep, if◌then◌else◌, ◌==◌, ◌≡◌, refl, ap, ◌∙◌, arith,
}
use autonomous_rover_swarm_c.Common.Errors.{
  Result, ok, err, is_ok, value_error, runtime_error, ◌>>=◌,
}
use autonomous_rover_swarm_c.Common.Dict.{Dict, lookup, insert}
use autonomous_rover_swarm_c.Common.Text.{named}

pub record EngineManager {ℓ} (E : Type ℓ) : Type ℓ where
  pub active_engine : String
  pub fallback_chain : List String
  pub engines : Dict String E
  pub initialized : Bool

or_false : (b : Bool) → (b || false) ≡ b
or_false true = refl
or_false false = refl

module _ {ℓ} {E : Type ℓ} where
  unfoldable pub register_engine : String → E → EngineManager E → EngineManager E
  register_engine name engine s = record s { engines = insert name engine s.engines }

  unfoldable pub route : Option String → EngineManager E → Result E
  route engine_name s = elim (lookup (or_else (named engine_name) s.active_engine) s.engines) [
    | none ↦ err value_error
    | some engine ↦ ok engine
  ]

  unfoldable pub resolve_chain : Option String → EngineManager E → List String
  resolve_chain engine_name s = elim (named engine_name) [
    | none ↦ s.active_engine ∷ keep (λ e. not (e == s.active_engine)) s.fallback_chain
    | some name ↦ if is_some (lookup name s.engines) then name ∷ [] else name ∷ s.fallback_chain
  ]

  unfoldable pub switch_engine : String → EngineManager E → Result (EngineManager E)
  switch_engine engine_name s =
      if not (is_some (lookup engine_name s.engines))
      then err value_error
      else ok (record s { active_engine = engine_name })

  -- What is left when all engines are closed.
  unfoldable pub shutdown : EngineManager E → EngineManager E
  shutdown s = record s { engines = []; initialized = false }

  module _ {R : Type ℓ} (ask : E → Result R) (truthy : R → Bool) where
    -- The answer of one engine of the chain, if it can be used.
    abbrev pub answer_of : EngineManager E → String → Option R
    answer_of s name = elim (route (some name) s >>= ask) [
      | err e ↦ none
      | ok r ↦ if truthy r then some r else none
    ]

    -- The loop of `route_infer` and of `route_embed`.
    unfoldable pub try_chain : List String → EngineManager E → Result R
    unfolding route
    try_chain [] s = err runtime_error
    try_chain (name ∷ names) s =
        let rest = try_chain names s in elim (answer_of s name) [ some r ↦ ok r | none ↦ rest ]

    unfoldable pub route_request : Option String → EngineManager E → Result R
    unfolding try_chain resolve_chain
    route_request engine_name s = try_chain (resolve_chain engine_name s) s

    abbrev pub any_answers : EngineManager E → List String → Bool
    any_answers s [] = false
    any_answers s (name ∷ names) = is_some (answer_of s name) || any_answers s names

    try_chain_lem :
        (names : List String) (s : EngineManager E)
        → is_ok (try_chain names s) ≡ any_answers s names
    unfolding try_chain route
    try_chain_lem [] s = refl
    try_chain_lem (name ∷ names) s = ground (arith, try_chain_lem names s)

    -- A request for no engine in particular succeeds exactly if the active engine or one of the
    -- fallback chain gives an answer that can be used; a request for an engine that is registered
    -- succeeds exactly if that engine does, and no other is tried.
    pub route_request_lem :
        (s : EngineManager E)
        → (is_ok (route_request none s)
            ≡ any_answers s
                (s.active_engine ∷ keep (λ e. not (e == s.active_engine)) s.fallback_chain))
          × ((name : String)
              → named (some name) ≡ some name
              → is_some (lookup name s.engines) ≡ true
              → is_ok (route_request (some name) s) ≡ is_some (answer_of s name))
    unfolding route_request resolve_chain route
    route_request_lem s = (
      try_chain_lem (s.active_engine ∷ keep (λ e. not (e == s.active_engine)) s.fallback_chain) s,
      λ name a_name there.
          let chain : resolve_chain (some name) s ≡ name ∷ [] = ground (arith, a_name, there) in
          ap (λ names. is_ok (try_chain names s)) chain
          ∙ try_chain_lem (name ∷ []) s
          ∙ or_false (is_some (answer_of s name)),
    )
