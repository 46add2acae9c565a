-- ===== src/Sensor/Pipeline/Retries.antt =====
-- sensor/pipeline.py: how the publication of a batch ends.
use autonomous_rover_swarm_c.Common.{
  ℕ, zero, suc, ◌+◌, ◌<◌, min, ◌≡◌, Option, none, List, [], ◌∷◌, leb, length, if◌then◌else◌, arith,
}
use autonomous_rover_swarm_c.Sensor.Pipeline.{
  PipelineMetrics, Batch, Outcome, delivered, raised, resume, publish,
}

-- How many of the first attempts raise, before one is delivered.
abbrev pub failures {ℓ} : {F : Type ℓ} → List (Outcome F) → ℕ
failures [] = 0
failures (delivered now ∷ more) = 0
failures (raised ∷ more) = suc (failures more)

module _ {ℓ} {R F : Type ℓ} where
  -- With this many retries left, and these outcomes, a publication ends in the result.
  abbrev EndsIn :
      ℕ
      → List (Outcome F)
      → Batch R
      → PipelineMetrics F
      → Option (Batch R) × PipelineMetrics F
      → Type ℓ
  EndsIn retries outcomes b m result =
      (result.0 ≡ none)
      × (result.1.total_errors ≡ m.total_errors + min (failures outcomes) (suc retries))
      × (result.1.total_flushed
          ≡ m.total_flushed + (if leb (failures outcomes) retries then length b.readings else 0))
      × (result.1.total_dropped
          ≡ m.total_dropped + (if leb (failures outcomes) retries then 0 else length b.readings))

  ends_with :
      (outcomes : List (Outcome F)) (retries : ℕ) (b : Batch R) (m : PipelineMetrics F)
      → retries < length outcomes
      → EndsIn retries outcomes b m (publish outcomes (record b { retries = retries }) m)
  unfolding publish resume
  ends_with [] retries b m h = ground arith
  ends_with (delivered now ∷ more) retries b m h = ground arith
  ends_with (raised ∷ more) zero b m h = ground arith
  ends_with (raised ∷ more) (suc retries) b m h = ground (
    arith,
    ends_with more retries b (record m { total_errors = m.total_errors + 1 }) (ground arith),
  )

-- With enough outcomes for all attempts, the publication of a batch ends, after at most one attempt
-- more than the batch has retries left. If all of these attempts raise, its readings are counted as
-- dropped, else as flushed, and every attempt that raises counts as an error.
pub publish_ends {ℓ} :
    {R F : Type ℓ} (outcomes : List (Outcome F)) (b : Batch R) (m : PipelineMetrics F)
    → b.retries < length outcomes
    → ((publish outcomes b m).0 ≡ none)
      × ((publish outcomes b m).1.total_errors
          ≡ m.total_errors + min (failures outcomes) (suc b.retries))
      × ((publish outcomes b m).1.total_flushed
          ≡ m.total_flushed + (if leb (failures outcomes) b.retries then length b.readings else 0))
      × ((publish outcomes b m).1.total_dropped
          ≡ m.total_dropped + (if leb (failures outcomes) b.retries then 0 else length b.readings))
publish_ends outcomes b m h = ends_with outcomes b.retries b m h
