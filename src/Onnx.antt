-- ===== src/Onnx.antt =====
-- internal/forecast/onnx: what the models are given and how their output is read.
pub mod Preprocess
pub mod Chronos
pub mod Session
pub mod Config
pub mod TimesFm
pub mod Chronos2
pub mod Lengths
pub mod Handles
