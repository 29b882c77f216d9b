-- ===== src/Forecast.antt =====
-- internal/forecast: what a forecaster is asked, and what it answers.
pub mod Types
pub mod Validate
pub mod Format
