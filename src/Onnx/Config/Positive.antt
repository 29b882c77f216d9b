-- ===== src/Onnx/Config/Positive.antt =====
-- The numbers and the path of a configuration that is accepted.
use neural_autoscaler.Base.{
  ◌≡◌, refl, inl, inr, String, false, ◌==◌, Option, none, some, Bool-cases,
}
use neural_autoscaler.Base.Int.{ℤ, pos, leb_ℤ}
use neural_autoscaler.Base.Dict.{Dict}
use neural_autoscaler.Base.Text.{trim_space}
use neural_autoscaler.Base.Result.{
  Result, ok, Holds, Holds-bind, Holds-last, Holds-wrap_err, Holds-ok,
}
use neural_autoscaler.Api.Source.{blank}
use neural_autoscaler.Onnx.Config.{
  Config, ConfigError, System, default_max_context, default_ort_api_version,
  default_intra_op_threads, default_batch_size, default_chronos_output_patches, option, positive,
  parse_positive_int, resolve_model_family, stat_model, int_option, config_from_forecast,
  parse_failed,
}

abbrev IsPositiveInt : ℤ → Type 0
IsPositiveInt n = leb_ℤ n (pos 0) ≡ false

abbrev IsReadyConfig : Config → Type 0
IsReadyConfig config =
    ((config.model_path == "") ≡ false)
    × IsPositiveInt config.max_context
    × IsPositiveInt config.ort_api_version
    × IsPositiveInt config.intra_op_threads
    × IsPositiveInt config.batch_size
    × IsPositiveInt config.num_output_patches

module _ {E : Type 0} (system : System E) where
  positive-IsPositiveInt : (value : Option ℤ) → Holds IsPositiveInt (positive system value)
  positive-IsPositiveInt none = tt
  positive-IsPositiveInt (some value) = elim (Bool-cases (leb_ℤ value (pos 0))) [
    | inl e ↦ rw e tt
    | inr e ↦ rw e e
  ]

  parse_positive_int-IsPositiveInt :
      (raw : String) (fallback : ℤ)
      → IsPositiveInt fallback
      → Holds IsPositiveInt (parse_positive_int system raw fallback)
  unfolding parse_positive_int
  parse_positive_int-IsPositiveInt raw fallback h = elim (Bool-cases (blank raw)) [
    | inl e ↦ rw e h
    | inr e ↦ rw e (positive-IsPositiveInt (system.atoi raw))
  ]

  int_option-IsPositiveInt :
      (opts : Dict String) (name : String) (fallback : ℤ)
      → IsPositiveInt fallback
      → Holds IsPositiveInt (int_option system opts name fallback)
  int_option-IsPositiveInt opts name fallback h =
      Holds-wrap_err IsPositiveInt (parse_failed name)
        (parse_positive_int system (option opts name) fallback)
        (parse_positive_int-IsPositiveInt (option opts name) fallback h)

  config_from_forecast-Holds :
      (opts : Dict String) → Holds IsReadyConfig (config_from_forecast system opts)
  unfolding config_from_forecast
  config_from_forecast-Holds opts =
      let path = trim_space (option opts "model_path") in
      let lib = trim_space (option opts "runtime_lib_path") in
      let int : (name : String) (fallback : ℤ) → Result (ConfigError E) ℤ =
        int_option system opts in
      let ints : (name : String) (fallback : ℤ)
          → IsPositiveInt fallback
          → Holds IsPositiveInt (int name fallback) =
        int_option-IsPositiveInt opts in
      elim (Bool-cases (path == "")) [
        | inl e ↦ simp e tt
        | inr e ↦ simp e (
            Holds-last IsReadyConfig (stat_model system (system.stat path)) _ (λ there.
              Holds-bind IsPositiveInt IsReadyConfig (int "ort_api_version" default_ort_api_version)
                _ (ints "ort_api_version" default_ort_api_version refl)
                (λ version good_version.
                  Holds-last IsReadyConfig
                    (resolve_model_family system (option opts "model_family") path lib version) _
                    (λ family.
                      Holds-bind IsPositiveInt IsReadyConfig (int "max_context" default_max_context)
                        _ (ints "max_context" default_max_context refl)
                        (λ max_context good_context.
                          Holds-bind IsPositiveInt IsReadyConfig
                            (int "intra_op_threads" default_intra_op_threads) _
                            (ints "intra_op_threads" default_intra_op_threads refl)
                            (λ threads good_threads.
                              Holds-bind IsPositiveInt IsReadyConfig
                                (int "batch_size" default_batch_size) _
                                (ints "batch_size" default_batch_size refl)
                                (λ batch_size good_batch.
                                  Holds-bind IsPositiveInt IsReadyConfig
                                    (int "num_output_patches" default_chronos_output_patches) _
                                    (ints "num_output_patches" default_chronos_output_patches refl)
                                    (λ patches good_patches. (
                                      e, good_context, good_version, good_threads, good_batch,
                                      good_patches,
                                    )))))))))
      ]

  -- A configuration that is accepted has the path of a model that is not blank, and positive numbers only,
  -- whatever the options say.
  config_from_forecast-IsReadyConfig :
      (opts : Dict String) (config : Config)
      → config_from_forecast system opts ≡ ok config
      → IsReadyConfig config
  config_from_forecast-IsReadyConfig opts config e =
      Holds-ok IsReadyConfig (config_from_forecast system opts) config e
        (config_from_forecast-Holds opts)
