-- ===== src/Tests.antt =====
-- Runs of the definitions at concrete inputs, and each theorem at one.
mod Data
mod Resize
mod Metrics
mod Api
mod Onnx
mod Forecast
mod Format
mod Clients
mod Controller
mod Prometheus
mod Backends
