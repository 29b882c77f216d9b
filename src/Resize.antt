-- ===== src/Resize.antt =====
-- internal/resize: from forecasts to new container requests.
pub mod Peak
pub mod Target
pub mod Threshold
pub mod Actuator
pub mod Apply
