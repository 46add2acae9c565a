-- ===== src/Sensor/Pipeline.antt =====
-- sensor/pipeline.py: `SensorPipeline`, its configuration and its metrics. `R` is the type of a
-- reading, `F` that of a time, `S` that of compressed bytes.
--
-- A flush takes its batch under the lock, but publishes it outside: other calls run while it waits
-- for the sink or for the next attempt. So a batch that is being published stands in `pending`, and
-- each end of an attempt is a step of its own (`resume_at`). `by_loop` says that the flush loop
-- publishes it, whose task `stop` cancels.
pub mod Accounting
pub mod Retries
use autonomous_rover_swarm_c.Common.{
  ℕ, zero, suc, ◌+◌, Bool, true, false, not, Option, none, some, List, [], ◌∷◌, ◌++◌, leb, eqb,
  length, keep, if◌then◌else◌,
}
use autonomous_rover_swarm_c.Common.Floats.{Floats}

pub data Compression : Type 0 where
  no_compression zlib : Compression

pub data PipelineState : Type 0 where
  stopped starting running stopping failed : PipelineState

pub record PipelineConfig : Type 0 where
  pub buffer_size : ℕ
  pub compression : Compression
  pub max_retries : ℕ

pub record PipelineMetrics {ℓ} (F : Type ℓ) : Type ℓ where
  pub total_ingested : ℕ
  pub total_flushed : ℕ
  pub total_dropped : ℕ
  pub total_errors : ℕ
  pub last_flush_time : F
  pub current_buffer_size : ℕ

-- A batch that is being published; `retries` are left after the attempt that is being made.
pub record Batch {ℓ} (R : Type ℓ) : Type ℓ where
  pub readings : List R
  pub retries : ℕ
  pub by_loop : Bool

pub record SensorPipeline {ℓ} (R F : Type ℓ) : Type ℓ where
  pub config : PipelineConfig
  pub buffer : List R
  pub has_sink : Bool
  pub state : PipelineState
  pub metrics : PipelineMetrics F
  pub has_flush_task : Bool
  pub stop_event : Bool
  pub pending : List (Batch R)

-- How an attempt to call the sink ends; `now` is the time of a success.
pub data Outcome {ℓ} (F : Type ℓ) : Type ℓ where
  delivered : (now : F) → Outcome F
  raised : Outcome F

-- What the sink is given.
pub data Payload {ℓ} (R S : Type ℓ) : Type ℓ where
  plain : List R → Payload R S
  packed : S → Payload R S

-- `self.total_dropped / total`
unfoldable pub loss_rate {ℓ} : {F : Type ℓ} → Floats F → PipelineMetrics F → F
loss_rate fl m =
    let total = m.total_ingested + m.total_dropped in
    if eqb total 0 then fl.of_nat 0 else fl.div (fl.of_nat m.total_dropped) (fl.of_nat total)

-- `_compress`; `pack` is msgpack and zlib, which may raise.
unfoldable pub compress {ℓ} :
    {R S : Type ℓ} → (List R → Option S) → Compression → List R → Payload R S
compress pack no_compression readings = plain readings
compress pack zlib readings = elim (pack readings) [ none ↦ plain readings | some s ↦ packed s ]

abbrev pub after_error {ℓ} :
    {R F : Type ℓ} → ℕ → Batch R → PipelineMetrics F → Option (Batch R) × PipelineMetrics F
after_error zero b m = (none, record m { total_dropped = m.total_dropped + length b.readings })
after_error (suc left) b m = (some (record b { retries = left }), m)

-- What an attempt leaves of its batch, and the metrics after it.
unfoldable pub resume {ℓ} :
    {R F : Type ℓ} → Outcome F → Batch R → PipelineMetrics F → Option (Batch R) × PipelineMetrics F
resume (delivered now) b m =
    (none, record m { total_flushed = m.total_flushed + length b.readings; last_flush_time = now })
resume raised b m = after_error b.retries b (record m { total_errors = m.total_errors + 1 })

-- `_publish_with_retry` with nothing in between: the attempts have these outcomes, and what is left of
-- the batch after them, with the metrics. The attempts end when the batch is delivered or given up.
unfoldable pub publish {ℓ} :
    {R F : Type ℓ}
    → List (Outcome F)
    → Batch R
    → PipelineMetrics F
    → Option (Batch R) × PipelineMetrics F
unfolding resume
publish [] b m = (some b, m)
publish (outcome ∷ more) b m =
    let first = resume outcome b m in
    elim first.0 [ none ↦ first | some b' ↦ publish more b' first.1 ]

abbrev pub is_running : PipelineState → Bool
is_running running = true
is_running _ = false

abbrev pub is_stopped : PipelineState → Bool
is_stopped stopped = true
is_stopped _ = false

module _ {ℓ} {R F : Type ℓ} where
  -- `__init__`, at the time that stands for 0.0
  abbrev pub new : PipelineConfig → F → SensorPipeline R F
  new config zero_time = record {
    config = config;
    buffer = [];
    has_sink = false;
    state = stopped;
    metrics = record {
      total_ingested = 0;
      total_flushed = 0;
      total_dropped = 0;
      total_errors = 0;
      last_flush_time = zero_time;
      current_buffer_size = 0;
    };
    has_flush_task = false;
    stop_event = false;
    pending = [];
  }

  unfoldable pub ingest : R → SensorPipeline R F → SensorPipeline R F
  ingest reading p =
      let m = p.metrics in
      if leb p.config.buffer_size (length p.buffer)
      then record p { metrics = record m { total_dropped = m.total_dropped + 1 } }
      else record p {
        buffer = p.buffer ++ (reading ∷ []);
        metrics = record m {
          total_ingested = m.total_ingested + 1;
          current_buffer_size = length (p.buffer ++ (reading ∷ []));
        };
      }

  -- `flush` up to the first attempt.
  unfoldable pub flush : (by_loop : Bool) → SensorPipeline R F → SensorPipeline R F
  flush by_loop p =
      let m = record p.metrics { current_buffer_size = 0 } in
      let batch : Batch R = record {
        readings = p.buffer;
        retries = p.config.max_retries;
        by_loop = by_loop;
      } in
      elim p.buffer [
        | [] ↦ p
        | ◌∷◌ _ _ ↦
            if not p.has_sink
            then record p {
              buffer = [];
              metrics = record m { total_dropped = m.total_dropped + length p.buffer };
            }
            else record p { buffer = []; metrics = m; pending = p.pending ++ (batch ∷ []) }
      ]

  -- The end of an attempt of the k-th pending batch.
  unfoldable pub resume_at :
      ℕ → Outcome F → List (Batch R) → PipelineMetrics F → List (Batch R) × PipelineMetrics F
  unfolding resume
  resume_at k outcome [] m = ([], m)
  resume_at zero outcome (b ∷ bs) m =
      let after = resume outcome b m in (elim after.0 [ none ↦ bs | some b' ↦ b' ∷ bs ], after.1)
  resume_at (suc k) outcome (b ∷ bs) m =
      let after = resume_at k outcome bs m in (b ∷ after.0, after.1)

  unfoldable pub attempt_ends : ℕ → Outcome F → SensorPipeline R F → SensorPipeline R F
  unfolding resume_at
  attempt_ends k outcome p =
      let after = resume_at k outcome p.pending p.metrics in
      record p { pending = after.0; metrics = after.1 }

  unfoldable pub set_sink : SensorPipeline R F → SensorPipeline R F
  set_sink p = record p { has_sink = true }

  unfoldable pub start : SensorPipeline R F → SensorPipeline R F
  start p =
      if is_running p.state
      then p
      else record p { state = running; stop_event = false; has_flush_task = true }

  -- `stop` up to its own flush: it cancels the task of the loop, and so the attempts of the batch that
  -- the loop is publishing, which is counted nowhere. Before its task ends the loop flushes what is
  -- left in the buffer, a step of its own.
  unfoldable pub stop : SensorPipeline R F → SensorPipeline R F
  stop p =
      let asked = record p { state = stopping; stop_event = true } in
      if is_stopped p.state
      then p
      else if p.has_flush_task
      then record asked { pending = keep (λ b. not b.by_loop) p.pending }
      else asked

  -- `stop` after the task has ended, up to the first attempt of its own flush.
  unfoldable pub stop_flushes : SensorPipeline R F → SensorPipeline R F
  unfolding flush
  stop_flushes p = flush false (record p { has_flush_task = false })

  -- The end of `stop`, after its own batch has been published.
  unfoldable pub stop_ends : SensorPipeline R F → SensorPipeline R F
  stop_ends p = record p { state = stopped }

  -- The flush loop ends with an error.
  unfoldable pub loop_fails : SensorPipeline R F → SensorPipeline R F
  loop_fails p = record p { state = failed }
