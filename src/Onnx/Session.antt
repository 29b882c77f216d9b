-- ===== src/Onnx/Session.antt =====
-- What the two models ask of the ONNX runtime, a library: it is a parameter, of which nothing is
-- assumed. `V` is a value of the runtime, `R`, `N` and `M` are its handles: a runtime, an environment
-- and a session.
use neural_autoscaler.Base.{ℕ, ◌-◌, ◌%◌, ◌^◌, String, Option, none, some, List}
use neural_autoscaler.Base.Int.{ℤ, pos, negsuc}
use neural_autoscaler.Base.Dict.{Dict}
use neural_autoscaler.Base.Result.{Result, ok, err}
use neural_autoscaler.Forecast.Validate.{RequestError}

-- `uint32(n)`
unfoldable pub uint32 : ℤ → ℤ
uint32 (pos n) = pos (n % 2 ^ 32)
uint32 (negsuc n) = pos (2 ^ 32 - 1 - n % 2 ^ 32)

pub data Tensor (S : Type 0) : Type 0 where
  floats : List S → List ℤ → Tensor S
  integers : List ℤ → List ℤ → Tensor S

pub record Ort (S V R N M E : Type 0) : Type 0 where
  pub new_runtime : (path : String) → (api_version : ℤ) → Result E R
  pub new_env : R → (name : String) → Result E N
  pub new_session : R → N → (path : String) → (threads : ℤ) → Result E M
  pub input_names : M → List String
  pub output_names : M → List String
  pub new_tensor_value : R → Tensor S → Result E V
  pub session_run : M → Dict V → Result E (Dict V)
  pub get_tensor_data : V → Result E (List S × List ℕ)

pub data BackendError (E : Type 0) : Type 0 where
  bad_request : RequestError → BackendError E
  not_ready : BackendError E
  cancelled : E → BackendError E
  build_tensor : String → E → BackendError E
  run_failed : E → BackendError E
  missing_output : String → BackendError E
  read_failed : String → E → BackendError E
  unexpected_shape : List ℕ → BackendError E

module _ {E : Type 0} where
  -- `ctx.Err()`
  abbrev pub not_cancelled : Option E → Result (BackendError E) (Unit {0})
  not_cancelled none = ok tt
  not_cancelled (some e) = err (cancelled e)

  abbrev pub output_or_missing : {V : Type 0} → String → Option V → Result (BackendError E) V
  output_or_missing name none = err (missing_output name)
  output_or_missing name (some v) = ok v

  -- `Ready`: the session is there, and so is then the runtime.
  abbrev pub ready : {R M : Type 0} → Option R → Option M → Result (BackendError E) (R × M)
  ready (some r) (some m) = ok (r, m)
  ready r m = err not_ready
