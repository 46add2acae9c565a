-- ===== src/Tests/Pipeline.antt =====
-- Runs of the sensor pipeline, with numbers as readings and times.
use autonomous_rover_swarm_c.Common.{
  ℕ, suc, ◌+◌, ◌≤◌, min, Bool, false, ◌≡◌, none, List, [], ◌∷◌, length, leb, if◌then◌else◌, arith,
}
use autonomous_rover_swarm_c.Sensor.Pipeline.{
  PipelineConfig, PipelineMetrics, Batch, Outcome, delivered, raised, zlib, new, publish,
}
use autonomous_rover_swarm_c.Sensor.Pipeline.Accounting.{
  Event, ingests, flushes, attempt_at, gets_sink, starts, stops, run, lost, offered, accounted,
  run_accounts, run-IsBounded,
}
use autonomous_rover_swarm_c.Sensor.Pipeline.Retries.{failures, publish_ends}

abbrev config : PipelineConfig
config = record { buffer_size = 1; compression = zlib; max_retries = 1 }

-- The second reading is dropped, and `stop` cancels the batch of the loop.
abbrev events : List (Event ℕ ℕ)
events =
    gets_sink
    ∷ starts
    ∷ ingests 7
    ∷ ingests 8
    ∷ flushes Bool.true
    ∷ attempt_at 0 raised
    ∷ stops
    ∷ []

run_accounts_example :
    accounted (run events (new config 0)) + lost events (new config 0) ≡ offered events
run_accounts_example = run_accounts config 0 events

run-IsBounded_example :
    (length (run events (new config 0)).buffer ≤ config.buffer_size)
    × ((run events (new config 0)).metrics.current_buffer_size
        ≡ length (run events (new config 0)).buffer)
run-IsBounded_example = run-IsBounded config 0 events

abbrev batch : Batch ℕ
batch = record { readings = 7 ∷ 8 ∷ []; retries = 1; by_loop = false }

abbrev metrics : PipelineMetrics ℕ
metrics = record {
  total_ingested = 2;
  total_flushed = 0;
  total_dropped = 0;
  total_errors = 0;
  last_flush_time = 0;
  current_buffer_size = 0;
}

abbrev outcomes : List (Outcome ℕ)
outcomes = raised ∷ delivered 9 ∷ []

publish_ends_example :
    ((publish outcomes batch metrics).0 ≡ none)
    × ((publish outcomes batch metrics).1.total_errors ≡ 0 + min (failures outcomes) (suc 1))
    × ((publish outcomes batch metrics).1.total_flushed
        ≡ 0 + (if leb (failures outcomes) 1 then length batch.readings else 0))
    × ((publish outcomes batch metrics).1.total_dropped
        ≡ 0 + (if leb (failures outcomes) 1 then 0 else length batch.readings))
publish_ends_example = publish_ends outcomes batch metrics (ground arith)
