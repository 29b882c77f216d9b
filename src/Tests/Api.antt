-- ===== src/Tests/Api.antt =====
-- Configurations and sources.
use neural_autoscaler.Base.{◌≡◌, refl, ◌≢◌, ◌↔◌, ◌⊎◌, false, none, some, [], ◌∷◌}
use neural_autoscaler.Base.Text.{trim_space}
use neural_autoscaler.Base.Result.{ok}
use neural_autoscaler.Api.Types.{MetricsSourceSpec}
use neural_autoscaler.Api.Quantity.{Thousandths, thousandths_quantity, Thousandths-IsOrdered}
use neural_autoscaler.Api.Resize.{
  validate_resize, is_blank, resource_bounds, clamp_quantity, validate_resource_bounds_spec,
  validate_min_change_percent, parse_optional_quantity,
}
use neural_autoscaler.Api.Resize.Valid.{AreValidEntries, validate_resize_iff}
use neural_autoscaler.Api.Resize.Clamp.{Within, clamp_quantity-Within}
use neural_autoscaler.Api.Source.{validate_metrics_source}
use neural_autoscaler.Api.Source.Valid.{IsSetServer, validate_metrics_source_iff}
use neural_autoscaler.Tests.Data.{config, cpu_bounds}

validate_resize_iff_example : (validate_resize Thousandths (some config) ≡ ok tt) ↔ (
    (is_blank (some "web") ≡ false)
    × Unit {0}
    × (config.resources ≢ [])
    × AreValidEntries Thousandths config.resources)
validate_resize_iff_example = validate_resize_iff Thousandths config

bounds_valid : validate_resource_bounds_spec Thousandths "cpu" cpu_bounds ≡ ok tt
unfolding validate_resource_bounds_spec trim_space parse_optional_quantity resource_bounds
    validate_min_change_percent
bounds_valid = refl

clamp_quantity-Within_example :
    Within
      (resource_bounds {Q = Thousandths} cpu_bounds)
      (clamp_quantity {Q = Thousandths} 5000 cpu_bounds)
    × (Within (resource_bounds {Q = Thousandths} cpu_bounds) 5000
        → clamp_quantity {Q = Thousandths} 5000 cpu_bounds ≡ 5000)
clamp_quantity-Within_example =
    clamp_quantity-Within Thousandths-IsOrdered "cpu" cpu_bounds 5000 bounds_valid

abbrev server : MetricsSourceSpec
server = record {
  source_type = "MetricsServer";
  metrics_server = some (record {
    target_ref = record { api_group = "apps"; kind = "Deployment"; name = "web" };
    resources = "cpu" ∷ "memory" ∷ [];
    namespace = "";
  });
  prometheus = none;
}

validate_metrics_source_iff_example : (validate_metrics_source (λ text. none) server ≡ ok tt) ↔ (
    ((server.source_type ≡ "MetricsServer") × IsSetServer (λ text. none) server.metrics_server)
    ⊎ ((server.source_type ≡ "Prometheus") × ⊥))
validate_metrics_source_iff_example = validate_metrics_source_iff (λ text. none) server
