-- ===== src/Onnx/Config.antt =====
-- internal/forecast/onnx/config.go, factory.go and the choice of the model's family in discover.go. The
-- reader of integers, `strconv.Atoi`, `os.Stat` and `strings.ToLower` are parameters, of which nothing
-- is assumed.
pub mod Positive
use text.Mathlib.Text.{find?}
use neural_autoscaler.Base.{
  ℕ, ◌≡◌, refl, inl, inr, String, Bool, true, false, ◌==◌, ◌||◌, Option, none, some, List, [], ◌∷◌,
  Bool-cases, arith, if◌then◌else◌,
}
use neural_autoscaler.Base.Int.{ℤ, pos, leb_ℤ, ltb_ℤ}
use neural_autoscaler.Base.Dict.{Dict, lookup}
use neural_autoscaler.Base.Text.{trim_space}
use neural_autoscaler.Base.Result.{
  Result, ok, err, ◌>>=◌, ◌>>◌, wrap_err, fail_if, Holds, Holds-bind, Holds-last, Holds-wrap_err,
  Holds-ok,
}
use neural_autoscaler.Api.Source.{blank}
use neural_autoscaler.Metrics.Prometheus.Query.{contains}

pub record Config : Type 0 where
  pub model_family : String
  pub model_path : String
  pub max_context : ℤ
  pub runtime_lib_path : String
  pub ort_api_version : ℤ
  pub intra_op_threads : ℤ
  pub input_name : String
  pub mean_output_name : String
  pub full_output_name : String
  pub batch_size : ℤ
  pub num_output_patches : ℤ

abbrev pub default_max_context : ℤ
default_max_context = pos 1024

abbrev pub default_ort_api_version : ℤ
default_ort_api_version = pos 23

abbrev pub default_intra_op_threads : ℤ
default_intra_op_threads = pos 4

abbrev pub default_batch_size : ℤ
default_batch_size = pos 2

abbrev pub default_chronos_output_patches : ℤ
default_chronos_output_patches = pos 4

abbrev pub model_family_timesfm : String
model_family_timesfm = "timesfm"

abbrev pub model_family_chronos2 : String
model_family_chronos2 = "chronos2"

pub data NumberError : Type 0 where
  not_a_number : NumberError
  not_positive : NumberError

pub data ConfigError (E : Type 0) : Type 0 where
  model_path_required : ConfigError E
  no_model : E → ConfigError E
  parse_failed : String → NumberError → ConfigError E
  discover_failed : E → ConfigError E
  unsupported_family : String → ConfigError E

-- The library functions, and `DiscoverModelFamily`, which opens the model.
pub record System (E : Type 0) : Type 0 where
  pub stat : String → Option E
  pub atoi : String → Option ℤ
  pub to_lower : String → String
  pub discover : (path lib : String) → ℤ → Result E String

abbrev text_or_empty : Option String → String
text_or_empty none = ""
text_or_empty (some text) = text

-- `opts[name]`
abbrev pub option : Dict String → String → String
option opts name = text_or_empty (lookup name opts)

abbrev pub or_else : String → String → String
or_else text fallback = if text == "" then fallback else text

-- `familyFromInputNames`: whether the name is in the set.
abbrev has_name : String → List String → Bool
has_name name [] = false
has_name name (x ∷ names) = x == name || has_name name names

unfoldable pub family_from_input_names : List String → Option String
family_from_input_names names =
    if has_name "past_values" names
    then some model_family_timesfm
    else (if has_name "context" names then some model_family_chronos2 else none)

unfoldable pub family_from_model_path : (String → String) → String → Option String
family_from_model_path to_lower path =
    if contains (to_lower path) "chronos"
    then some model_family_chronos2
    else (if contains (to_lower path) "timesfm" then some model_family_timesfm else none)

unfoldable pub parse_model_family : (String → String) → String → String
unfolding trim_space
parse_model_family to_lower raw =
    let family = to_lower (trim_space raw) in
    if family == model_family_timesfm
    then model_family_timesfm
    else (if family == model_family_chronos2
          || (family == "chronos" || (family == "chronos-2" || family == "chronos2-onnx"))
        then model_family_chronos2
        else family)

module _ {E : Type 0} (system : System E) where
  abbrev pub positive : Option ℤ → Result NumberError ℤ
  positive none = err not_a_number
  positive (some value) = if leb_ℤ value (pos 0) then err not_positive else ok value

  unfoldable pub parse_positive_int : String → ℤ → Result NumberError ℤ
  unfolding trim_space
  parse_positive_int raw fallback = if blank raw then ok fallback else positive (system.atoi raw)

  unfoldable pub resolve_model_family : (raw path lib : String) → ℤ → Result (ConfigError E) String
  unfolding parse_model_family
  resolve_model_family raw path lib version =
      if blank raw
      then wrap_err discover_failed (system.discover path lib version)
      else ok (parse_model_family system.to_lower raw)

  abbrev pub stat_model : Option E → Result (ConfigError E) (Unit {0})
  stat_model none = ok tt
  stat_model (some e) = err (no_model e)

  abbrev pub int_option : Dict String → String → ℤ → Result (ConfigError E) ℤ
  int_option opts name fallback =
      wrap_err (parse_failed name) (parse_positive_int (option opts name) fallback)

  unfoldable pub config_from_forecast : Dict String → Result (ConfigError E) Config
  unfolding parse_positive_int resolve_model_family
  config_from_forecast opts =
      let path = trim_space (option opts "model_path") in
      let lib = trim_space (option opts "runtime_lib_path") in
      do
        fail_if (path == "") model_path_required
        stat_model (system.stat path)
        version ← int_option opts "ort_api_version" default_ort_api_version
        family ← resolve_model_family (option opts "model_family") path lib version
        max_context ← int_option opts "max_context" default_max_context
        threads ← int_option opts "intra_op_threads" default_intra_op_threads
        batch_size ← int_option opts "batch_size" default_batch_size
        patches ← int_option opts "num_output_patches" default_chronos_output_patches
        ok (record {
          model_family = family;
          model_path = path;
          max_context = max_context;
          runtime_lib_path = lib;
          ort_api_version = version;
          intra_op_threads = threads;
          input_name = or_else (option opts "input_name") "past_values";
          mean_output_name = or_else (option opts "mean_output_name") "mean_predictions";
          full_output_name = or_else (option opts "full_output_name") "full_predictions";
          batch_size = batch_size;
          num_output_patches = patches;
        })
