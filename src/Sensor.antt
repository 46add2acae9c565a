-- ===== src/Sensor.antt =====
-- sensor/: the pipeline that buffers a rover's readings and publishes them.
pub mod Pipeline
