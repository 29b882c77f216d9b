-- ===== src/Onnx/Handles.antt =====
-- The handles of the ONNX runtime: `newTimesFM`, `newChronos2` and the two `Close`, of timesfm.go and
-- chronos2.go in internal/forecast/onnx, and `DiscoverModelFamily` and `NewFromConfig` of discover.go and
-- factory.go. A function that closes handles returns them in the order in which it closes them.
pub mod Closed
use neural_autoscaler.Base.{
  ℕ, ◌≡◌, refl, ap, ◌∙◌, ◌⊎◌, inl, inr, String, Bool, true, false, ◌==◌, Option, none, some, List,
  [], ◌∷◌, ◌++◌, if◌then◌else◌,
}
use neural_autoscaler.Base.Int.{ℤ, pos}
use neural_autoscaler.Base.Result.{Result, ok, err, Result-cases}
use neural_autoscaler.Onnx.Session.{Ort, uint32}
use neural_autoscaler.Onnx.Config.{
  Config, family_from_input_names, family_from_model_path, model_family_timesfm,
  model_family_chronos2,
}
use neural_autoscaler.Onnx.TimesFm.{TimesFm, first_or, choose_outputs}
use neural_autoscaler.Onnx.Chronos2.{Chronos2}

pub data Handle (R N M : Type 0) : Type 0 where
  runtime_handle : R → Handle R N M
  env_handle : N → Handle R N M
  session_handle : M → Handle R N M

pub data LoadError (E : Type 0) : Type 0 where
  create_runtime : E → LoadError E
  create_env : E → LoadError E
  open_session : E → LoadError E
  no_family : List String → LoadError E
  unsupported_model_family : String → LoadError E

-- What is closed before the return, and what is returned.
abbrev pub Closing : (R N M E A : Type 0) → Type 0
Closing R N M E A = List (Handle R N M) × Result (LoadError E) A

-- The handles that a call of `Close` finds.
pub record Handles (R N M : Type 0) : Type 0 where
  pub runtime : Option R
  pub env : Option N
  pub session : Option M

module _ {R N M : Type 0} where
  abbrev close_session : Option M → List (Handle R N M)
  close_session none = []
  close_session (some m) = session_handle m ∷ []

  abbrev close_env : Option N → List (Handle R N M)
  close_env none = []
  close_env (some n) = env_handle n ∷ []

  abbrev close_runtime : Option R → List (Handle R N M)
  close_runtime none = []
  close_runtime (some r) = runtime_handle r ∷ []

  unfoldable pub close : Handles R N M → List (Handle R N M) × Handles R N M
  close h = (
    close_session h.session ++ (close_env h.env ++ close_runtime h.runtime),
    record { runtime = none; env = none; session = none },
  )

module _ {S V R N M E : Type 0} (ort : Ort S V R N M E) where
  abbrev pub opened_session : {A : Type 0} → R → N → (M → A) → Result E M → Closing R N M E A
  opened_session r n make (err e) = (env_handle n ∷ runtime_handle r ∷ [], err (open_session e))
  opened_session r n make (ok m) = ([], ok (make m))

  abbrev pub opened_env :
      {A : Type 0} → R → (path : String) → ℤ → (N → M → A) → Result E N → Closing R N M E A
  opened_env r path threads make (err e) = (runtime_handle r ∷ [], err (create_env e))
  opened_env r path threads make (ok n) =
      opened_session r n (make n) (ort.new_session r n path threads)

  abbrev pub opened_runtime :
      {A : Type 0} → (path : String) → ℤ → (R → N → M → A) → Result E R → Closing R N M E A
  opened_runtime path threads make (err e) = ([], err (create_runtime e))
  opened_runtime path threads make (ok r) =
      opened_env r path threads (make r) (ort.new_env r "neural-autoscaler")

  -- What the two constructors have in common.
  abbrev open_model : {A : Type 0} → Config → (R → N → M → A) → Closing R N M E A
  open_model config make =
      opened_runtime config.model_path config.intra_op_threads make
        (ort.new_runtime config.runtime_lib_path (uint32 config.ort_api_version))

  abbrev pub timesfm_of : Config → R → N → M → TimesFm R N M
  timesfm_of config r n m =
      let (mean, full) =
        choose_outputs (config.mean_output_name, config.full_output_name) (ort.output_names m) in
      record {
        max_context = config.max_context;
        runtime = some r;
        env = some n;
        session = some m;
        input_name = first_or config.input_name (ort.input_names m);
        mean_output = mean;
        full_output = full;
        batch_size = config.batch_size;
      }

  unfoldable pub new_timesfm : Config → Closing R N M E (TimesFm R N M)
  new_timesfm config = open_model config (timesfm_of config)

  abbrev chronos2_of : Config → R → N → M → Chronos2 R N M
  chronos2_of config r n m = record {
    runtime = some r;
    env = some n;
    session = some m;
    num_output_patches = config.num_output_patches;
  }

  unfoldable new_chronos2 : Config → Closing R N M E (Chronos2 R N M)
  new_chronos2 config = open_model config (chronos2_of config)

  -- `NewFromConfig`. What is returned is one of the two models.
  unfoldable new_from_config : Config → Closing R N M E (TimesFm R N M ⊎ Chronos2 R N M)
  new_from_config config =
      if config.model_family == model_family_timesfm
      then open_model config (λ r n m. inl (timesfm_of config r n m))
      else (if config.model_family == model_family_chronos2
          then open_model config (λ r n m. inr (chronos2_of config r n m))
          else ([], err (unsupported_model_family config.model_family)))

  abbrev family_or_path : (String → String) → String → List String → Option String → Option String
  family_or_path to_lower path names none = family_from_model_path to_lower path
  family_or_path to_lower path names (some family) = some family

  abbrev family_found : List String → Option String → Result (LoadError E) String
  family_found names none = err (no_family names)
  family_found names (some family) = ok family

  abbrev discovered_session :
      (String → String) → String → R → N → Result E M → Closing R N M E String
  discovered_session to_lower path r n (err e) =
      (env_handle n ∷ runtime_handle r ∷ [], err (open_session e))
  discovered_session to_lower path r n (ok m) =
      let names = ort.input_names m in
      (
        session_handle m ∷ env_handle n ∷ runtime_handle r ∷ [],
        family_found names (family_or_path to_lower path names (family_from_input_names names)),
      )

  abbrev pub discovered_env : (String → String) → String → R → Result E N → Closing R N M E String
  discovered_env to_lower path r (err e) = (runtime_handle r ∷ [], err (create_env e))
  discovered_env to_lower path r (ok n) =
      discovered_session to_lower path r n (ort.new_session r n path (pos 1))

  abbrev pub discovered_runtime : (String → String) → String → Result E R → Closing R N M E String
  discovered_runtime to_lower path (err e) = ([], err (create_runtime e))
  discovered_runtime to_lower path (ok r) =
      discovered_env to_lower path r (ort.new_env r "neural-autoscaler-discover")

  unfoldable pub discover_model_family :
      (String → String) → (path lib : String) → ℤ → Closing R N M E String
  discover_model_family to_lower path lib version =
      discovered_runtime to_lower path (ort.new_runtime lib (uint32 version))
