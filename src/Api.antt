-- ===== src/Api.antt =====
-- api/v1alpha1: the resource's types, and the validation of its three parts.
pub mod Types
pub mod Quantity
pub mod Duration
pub mod Resize
pub mod Source
