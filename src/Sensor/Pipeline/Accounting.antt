-- ===== src/Sensor/Pipeline/Accounting.antt =====
-- sensor/pipeline.py: where the readings are, whatever runs while a batch is being published.
use autonomous_rover_swarm_c.Common.{
  length-append, ℕ, zero, suc, ◌+◌, ◌≤◌, Bool, false, not, ◌≡◌, refl, ap, ◌∙◌, Option, none, some,
  List, [], ◌∷◌, ◌++◌, length, keep, if◌then◌else◌, arith,
}
use autonomous_rover_swarm_c.Sensor.Pipeline.{
  PipelineConfig, PipelineMetrics, SensorPipeline, Batch, Outcome, new, ingest, flush, resume,
  resume_at, attempt_ends, set_sink, start, stop, stop_flushes, stop_ends, loop_fails, is_stopped,
}

-- What runs next; a call that waits is one step up to the wait and one after it.
pub data Event {ℓ} (R F : Type ℓ) : Type ℓ where
  ingests : (reading : R) → Event R F
  flushes : (by_loop : Bool) → Event R F
  attempt_at : ℕ → Outcome F → Event R F
  gets_sink starts stops flushes_stop ends_stop fails : Event R F

module _ {ℓ} {R : Type ℓ} where
  abbrev pub readings_in : List (Batch R) → ℕ
  readings_in [] = 0
  readings_in (b ∷ bs) = length b.readings + readings_in bs

  readings_in-++ :
      (bs cs : List (Batch R)) → readings_in (bs ++ cs) ≡ readings_in bs + readings_in cs
  readings_in-++ [] cs = ground arith
  readings_in-++ (b ∷ bs) cs = ground (arith, readings_in-++ bs cs)

  readings_in-keep :
      (bs : List (Batch R))
      → readings_in bs
        ≡ readings_in (keep (λ b. b.by_loop) bs) + readings_in (keep (λ b. not b.by_loop) bs)
  readings_in-keep [] = ground arith
  readings_in-keep (b ∷ bs) = ground (arith, readings_in-keep bs)

  abbrev left_of : Option (Batch R) → ℕ
  left_of none = 0
  left_of (some b) = length b.readings

module _ {ℓ} {R F : Type ℓ} where
  unfoldable pub step : Event R F → SensorPipeline R F → SensorPipeline R F
  unfolding ingest flush attempt_ends set_sink start stop stop_flushes stop_ends loop_fails
  step (ingests reading) p = ingest reading p
  step (flushes by_loop) p = flush by_loop p
  step (attempt_at k outcome) p = attempt_ends k outcome p
  step gets_sink p = set_sink p
  step starts p = start p
  step stops p = stop p
  step flushes_stop p = stop_flushes p
  step ends_stop p = stop_ends p
  step fails p = loop_fails p

  -- The pipeline after these events.
  unfoldable pub run : List (Event R F) → SensorPipeline R F → SensorPipeline R F
  unfolding step
  run [] p = p
  run (e ∷ es) p = run es (step e p)

  abbrev given_in : Event R F → ℕ
  given_in (ingests reading) = 1
  given_in _ = 0

  -- The readings that the pipeline is given.
  abbrev pub offered : List (Event R F) → ℕ
  offered [] = 0
  offered (e ∷ es) = given_in e + offered es

  -- The readings of the batches that `stop` cancels.
  abbrev pub cancelled : SensorPipeline R F → ℕ
  cancelled p =
      if is_stopped p.state
      then 0
      else if p.has_flush_task
      then readings_in (keep (λ b. b.by_loop) p.pending)
      else 0

  abbrev lost_in : Event R F → SensorPipeline R F → ℕ
  lost_in stops p = cancelled p
  lost_in _ p = 0

  -- The readings that are cancelled in these events.
  unfoldable pub lost : List (Event R F) → SensorPipeline R F → ℕ
  unfolding step
  lost [] p = 0
  lost (e ∷ es) p = lost_in e p + lost es (step e p)

  -- The readings that were sent, were dropped, wait, or are being published.
  abbrev pub accounted : SensorPipeline R F → ℕ
  accounted p =
      p.metrics.total_flushed + p.metrics.total_dropped + length p.buffer + readings_in p.pending

  resume_accounts :
      (outcome : Outcome F) (b : Batch R) (m : PipelineMetrics F)
      → (resume outcome b m).1.total_flushed
          + (resume outcome b m).1.total_dropped
          + left_of (resume outcome b m).0
        ≡ m.total_flushed + m.total_dropped + length b.readings
  unfolding resume
  resume_accounts outcome b m = ground arith

  resume_at_accounts :
      (k : ℕ) (outcome : Outcome F) (bs : List (Batch R)) (m : PipelineMetrics F)
      → (resume_at k outcome bs m).1.total_flushed
          + (resume_at k outcome bs m).1.total_dropped
          + readings_in (resume_at k outcome bs m).0
        ≡ m.total_flushed + m.total_dropped + readings_in bs
  unfolding resume_at
  resume_at_accounts k outcome [] m = refl
  resume_at_accounts zero outcome (b ∷ bs) m = ground (arith, resume_accounts outcome b m)
  resume_at_accounts (suc k) outcome (b ∷ bs) m = ground (arith, resume_at_accounts k outcome bs m)

  ingest_accounts :
      (reading : R) (p : SensorPipeline R F) → accounted (ingest reading p) ≡ accounted p + 1
  unfolding ingest
  ingest_accounts reading p = ground (arith, length-append p.buffer (reading ∷ []))

  flush_accounts :
      (by_loop : Bool) (p : SensorPipeline R F) → accounted (flush by_loop p) ≡ accounted p
  unfolding flush
  flush_accounts by_loop p =
      let batch : Batch R = record {
        readings = p.buffer;
        retries = p.config.max_retries;
        by_loop = by_loop;
      } in
      ground (arith, readings_in-++ p.pending (batch ∷ []))

  attempt_accounts :
      (k : ℕ) (outcome : Outcome F) (p : SensorPipeline R F)
      → accounted (attempt_ends k outcome p) ≡ accounted p
  unfolding attempt_ends
  attempt_accounts k outcome p = ground (arith, resume_at_accounts k outcome p.pending p.metrics)

  stop_accounts : (p : SensorPipeline R F) → accounted (stop p) + cancelled p ≡ accounted p
  unfolding stop
  stop_accounts p = ground (arith, readings_in-keep p.pending)

  step_accounts :
      (e : Event R F) (p : SensorPipeline R F)
      → accounted (step e p) + lost_in e p ≡ accounted p + given_in e
  unfolding step stop_flushes stop_ends set_sink start loop_fails
  step_accounts (ingests reading) p = ground (arith, ingest_accounts reading p)
  step_accounts (flushes by_loop) p = ground (arith, flush_accounts by_loop p)
  step_accounts (attempt_at k outcome) p = ground (arith, attempt_accounts k outcome p)
  step_accounts gets_sink p = refl
  step_accounts starts p = ground arith
  step_accounts stops p = ground (arith, stop_accounts p)
  step_accounts flushes_stop p =
      ground (arith, flush_accounts false (record p { has_flush_task = false }))
  step_accounts ends_stop p = refl
  step_accounts fails p = refl

  accounts_from :
      (es : List (Event R F)) (p : SensorPipeline R F)
      → accounted (run es p) + lost es p ≡ accounted p + offered es
  unfolding run lost
  accounts_from [] p = refl
  accounts_from (e ∷ es) p = ground (arith, step_accounts e p, accounts_from es (step e p))

  -- Whatever runs while batches are being published, every reading that a new pipeline is given is
  -- counted once: as flushed, as dropped, in the buffer, in a batch that is being published, or in a
  -- batch that `stop` cancelled while the flush loop was publishing it.
  pub run_accounts :
      (config : PipelineConfig) (zero_time : F) (es : List (Event R F))
      → accounted (run es (new config zero_time)) + lost es (new config zero_time) ≡ offered es
  run_accounts config zero_time es = ground (arith, accounts_from es (new config zero_time))

  -- The buffer is within its bound, and its size is the one that the metrics show.
  abbrev pub IsBounded : SensorPipeline R F → Type 0
  IsBounded p =
      (length p.buffer ≤ p.config.buffer_size) × (p.metrics.current_buffer_size ≡ length p.buffer)

  resume_at_size :
      (k : ℕ) (outcome : Outcome F) (bs : List (Batch R)) (m : PipelineMetrics F)
      → (resume_at k outcome bs m).1.current_buffer_size ≡ m.current_buffer_size
  unfolding resume_at resume
  resume_at_size k outcome [] m = refl
  resume_at_size zero outcome (b ∷ bs) m = ground arith
  resume_at_size (suc k) outcome (b ∷ bs) m = resume_at_size k outcome bs m

  step-IsBounded :
      (e : Event R F) (p : SensorPipeline R F)
      → IsBounded p
      → IsBounded (step e p) × ((step e p).config ≡ p.config)
  unfolding step ingest flush stop_flushes stop_ends set_sink start stop loop_fails attempt_ends
  step-IsBounded (ingests reading) p h = ground (arith, length-append p.buffer (reading ∷ []))
  step-IsBounded (flushes by_loop) p h = ground arith
  step-IsBounded (attempt_at k outcome) p h =
      ground (arith, resume_at_size k outcome p.pending p.metrics)
  step-IsBounded gets_sink p h = (h, refl)
  step-IsBounded starts p h = ground arith
  step-IsBounded stops p h = ground arith
  step-IsBounded flushes_stop p h = ground arith
  step-IsBounded ends_stop p h = (h, refl)
  step-IsBounded fails p h = (h, refl)

  within_from :
      (es : List (Event R F)) (p : SensorPipeline R F)
      → IsBounded p
      → IsBounded (run es p) × ((run es p).config ≡ p.config)
  unfolding run
  within_from [] p h = (h, refl)
  within_from (e ∷ es) p h =
      let next = step-IsBounded e p h in
      let rest = within_from es (step e p) next.0 in (rest.0, rest.1 ∙ next.1)

  -- Whatever runs, the buffer of a pipeline never holds more than `buffer_size` readings, and the
  -- metrics show its size.
  pub run-IsBounded :
      (config : PipelineConfig) (zero_time : F) (es : List (Event R F))
      → (length (run es (new config zero_time)).buffer ≤ config.buffer_size)
        × ((run es (new config zero_time)).metrics.current_buffer_size
            ≡ length (run es (new config zero_time)).buffer)
  run-IsBounded config zero_time es =
      let known = within_from es (new config zero_time) (ground arith, refl) in
      ground (arith, known.0.0, known.0.1, ap (λ c. c.buffer_size) known.1)
