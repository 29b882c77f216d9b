-- ===== src/Tests/Backends.antt =====
-- A runtime of ONNX in which the second handle cannot be made, and one whose model returns zeros.
use neural_autoscaler.Base.{
  ℕ, ◌≡◌, refl, String, false, ◌==◌, none, some, [], ◌∷◌, replicate, if◌then◌else◌,
}
use neural_autoscaler.Base.Int.{pos}
use neural_autoscaler.Base.Float.{Fixed, fixed_float, fixed_single}
use neural_autoscaler.Base.Result.{ok, err}
use neural_autoscaler.Base.Dict.{lookup}
use neural_autoscaler.Base.Decimal.{format_int}
use neural_autoscaler.Base.Text.{trim_space}
use neural_autoscaler.Forecast.Types.{Request, Response}
use neural_autoscaler.Onnx.Session.{Ort}
use neural_autoscaler.Onnx.Chronos.{
  Hyperbolic, chronos_point_series, chronos_quantile_horizon, prepare_chronos_inputs,
}
use neural_autoscaler.Forecast.Validate.{validate_request}
use neural_autoscaler.Onnx.Chronos2.{
  Chronos2, chronos_forecast, AnswersAll, chronos_forecast-AnswersAll,
}
use neural_autoscaler.Onnx.Config.{Config, System, config_from_forecast, parse_model_family}
use neural_autoscaler.Onnx.Handles.{runtime_handle, Handles, close, new_timesfm}
use neural_autoscaler.Onnx.Handles.Closed.{
  made_runtime, closed_after, timesfm_handles, new_timesfm-closed,
}
use neural_autoscaler.Api.Source.{blank}
use neural_autoscaler.Args.{Args, forecast_options}
use neural_autoscaler.Args.Laws.{config_from_forecast-forecast_options}

abbrev zeros : Ort Fixed String String String String String
zeros = record {
  new_runtime = λ path version. ok "runtime";
  new_env = λ r name. if name == "neural-autoscaler" then err "no memory" else ok "env";
  new_session = λ r n path threads. ok "session";
  input_names = λ m. [];
  output_names = λ m. [];
  new_tensor_value = λ r values. ok "value";
  session_run = λ m inputs. ok (("quantile_preds", "out") ∷ []);
  get_tensor_data = λ v. ok (replicate 4 0, 1 ∷ 21 ∷ 64 ∷ []);
}

abbrev config : Config
config = record {
  model_family = "timesfm";
  model_path = "model.onnx";
  max_context = pos 1024;
  runtime_lib_path = "";
  ort_api_version = pos 23;
  intra_op_threads = pos 4;
  input_name = "past_values";
  mean_output_name = "mean_predictions";
  full_output_name = "full_predictions";
  batch_size = pos 2;
  num_output_patches = pos 4;
}

closed_test : (new_timesfm zeros config).0 ≡ runtime_handle "runtime" ∷ []
unfolding new_timesfm
closed_test = refl

abbrev handles : Handles String String String
handles = record { runtime = some "runtime"; env = some "env"; session = some "session" }

new_timesfm-closed_example :
    (closed_after zeros (timesfm_handles zeros) (new_timesfm zeros config)
      ≡ made_runtime zeros "neural-autoscaler" "model.onnx" (pos 4) (ok "runtime"))
    × ((close (close handles).1).0 ≡ [])
new_timesfm-closed_example = new_timesfm-closed zeros config handles

abbrev math : Hyperbolic Fixed
math = record { asinh = λ v. v; sinh = λ v. v }

abbrev chronos : Chronos2 String String String
chronos = record {
  runtime = some "runtime";
  env = some "env";
  session = some "session";
  num_output_patches = pos 4;
}

abbrev request : Request Fixed ℕ
request = record {
  series_id = "apps/web/cpu";
  values = 1000 ∷ 2000 ∷ [];
  timestamps = [];
  horizon = pos 2;
  step = pos 60;
  quantiles = 900 ∷ [];
}

abbrev response : Response Fixed
response = record {
  point = 0 ∷ 0 ∷ [];
  quantiles = record { level = 900; values = 0 ∷ 0 ∷ [] } ∷ [];
  model_version = "TSFM-ai/chronos-2-onnx";
}

chronos_runs : chronos_forecast math 1000000 zeros chronos none request ≡ ok response
unfolding chronos_forecast validate_request trim_space lookup chronos_point_series
    chronos_quantile_horizon prepare_chronos_inputs
chronos_runs = refl

chronos_forecast-AnswersAll_example : AnswersAll request response
chronos_forecast-AnswersAll_example =
    chronos_forecast-AnswersAll math 1000000 zeros chronos none request response chronos_runs

abbrev args : Args
args = record {
  metrics_addr = ":8080";
  probe_addr = ":8081";
  enable_leader_election = false;
  model_path = " /models/model.onnx";
  model_family = "TimesFM";
  timesfm_max_context = pos 512;
  onnx_runtime_lib_path = "";
  onnx_runtime_api_version = pos 23;
}

abbrev system : System String
system = record {
  stat = λ path. none;
  atoi = λ text.
      if text == "512"
      then some (pos 512)
      else (if text == "23" then some (pos 23) else some (pos 4));
  to_lower = λ text. if text == "TimesFM" then "timesfm" else text;
  discover = λ path lib version. err "not opened";
}

numbers_read :
    (system.atoi (format_int (pos 512)) ≡ some (pos 512))
    × (system.atoi (format_int (pos 23)) ≡ some (pos 23))
    × (system.atoi (format_int (pos 4)) ≡ some (pos 4))
unfolding format_int
numbers_read = (refl, refl, refl)

paths_given : (blank args.model_path ≡ false) × (blank args.model_family ≡ false)
unfolding trim_space
paths_given = (refl, refl)

config_from_forecast-forecast_options_example :
    config_from_forecast system (forecast_options args)
    ≡ ok (record {
      model_family = parse_model_family system.to_lower "TimesFM";
      model_path = trim_space " /models/model.onnx";
      max_context = pos 512;
      runtime_lib_path = trim_space "";
      ort_api_version = pos 23;
      intra_op_threads = pos 4;
      input_name = "past_values";
      mean_output_name = "mean_predictions";
      full_output_name = "full_predictions";
      batch_size = pos 2;
      num_output_patches = pos 4;
    })
config_from_forecast-forecast_options_example =
    config_from_forecast-forecast_options system args 511 22 refl refl numbers_read.0 numbers_read.1
      numbers_read.2 paths_given.0 paths_given.1 refl
