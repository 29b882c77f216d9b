-- ===== src/Onnx/Handles/Closed.antt =====
-- Every handle of the ONNX runtime is closed, once, in the reverse order of the making.
use neural_autoscaler.Base.{◌≡◌, refl, ap, inl, inr, String, some, List, [], ◌∷◌, ◌++◌}
use neural_autoscaler.Base.Int.{ℤ, pos}
use neural_autoscaler.Base.Result.{Result, ok, err, Result-cases}
use neural_autoscaler.Onnx.Session.{Ort, uint32}
use neural_autoscaler.Onnx.Config.{Config}
use neural_autoscaler.Onnx.TimesFm.{TimesFm}
use neural_autoscaler.Onnx.Handles.{
  Handle, runtime_handle, env_handle, session_handle, Closing, Handles, close, opened_session,
  opened_env, opened_runtime, timesfm_of, new_timesfm, discovered_env, discovered_runtime,
  discover_model_family,
}

-- The handles that are made for a model, the last one first.
module _ {S V R N M E : Type 0} (ort : Ort S V R N M E) (env_name path : String) (threads : ℤ) where
  abbrev made_session : R → N → Result E M → List (Handle R N M)
  made_session r n (err e) = env_handle n ∷ runtime_handle r ∷ []
  made_session r n (ok m) = session_handle m ∷ env_handle n ∷ runtime_handle r ∷ []

  abbrev made_env : R → Result E N → List (Handle R N M)
  made_env r (err e) = runtime_handle r ∷ []
  made_env r (ok n) = made_session r n (ort.new_session r n path threads)

  abbrev pub made_runtime : Result E R → List (Handle R N M)
  made_runtime (err e) = []
  made_runtime (ok r) = made_env r (ort.new_env r env_name)

module _ {S V R N M E : Type 0} (ort : Ort S V R N M E) where
  abbrev pub timesfm_handles : TimesFm R N M → Handles R N M
  timesfm_handles t = record { runtime = t.runtime; env = t.env; session = t.session }

  -- What is closed in the end: by a constructor that fails, or by `Close`.
  abbrev pub closed_after :
      {A : Type 0} → (A → Handles R N M) → Closing R N M E A → List (Handle R N M)
  closed_after handles (closed, err e) = closed
  closed_after handles (closed, ok a) = closed ++ (close (handles a)).0

  module _ {A : Type 0} (handles : A → Handles R N M) (make : R → N → M → A)
      (same : (r : R) (n : N) (m : M)
        → handles (make r n m) ≡ record { runtime = some r; env = some n; session = some m }) where
    opened_session-closed :
        (path : String) (threads : ℤ) (r : R) (n : N) (m : Result E M)
        → closed_after handles (opened_session ort r n (make r n) m)
          ≡ made_session ort "neural-autoscaler" path threads r n m
    unfolding close
    opened_session-closed path threads r n (err e) = refl
    opened_session-closed path threads r n (ok m) = ap (λ h. (close h).0) (same r n m)

    opened_env-closed :
        (path : String) (threads : ℤ) (r : R) (n : Result E N)
        → closed_after handles (opened_env ort r path threads (make r) n)
          ≡ made_env ort "neural-autoscaler" path threads r n
    opened_env-closed path threads r (err e) = refl
    opened_env-closed path threads r (ok n) =
        opened_session-closed path threads r n (ort.new_session r n path threads)

    opened_runtime-closed :
        (path : String) (threads : ℤ) (r : Result E R)
        → closed_after handles (opened_runtime ort path threads make r)
          ≡ made_runtime ort "neural-autoscaler" path threads r
    opened_runtime-closed path threads (err e) = refl
    opened_runtime-closed path threads (ok r) =
        opened_env-closed path threads r (ort.new_env r "neural-autoscaler")

  -- Each handle that `newTimesFM` makes is closed once, the last one first: by itself, when it returns an
  -- error, or else by `Close`, after which another `Close` has nothing to close.
  pub new_timesfm-closed :
      (config : Config) (h : Handles R N M)
      → (closed_after timesfm_handles (new_timesfm ort config)
          ≡ made_runtime ort "neural-autoscaler" config.model_path config.intra_op_threads
              (ort.new_runtime config.runtime_lib_path (uint32 config.ort_api_version)))
        × ((close (close h).1).0 ≡ [])
  unfolding new_timesfm close
  new_timesfm-closed config h = (
    opened_runtime-closed timesfm_handles (timesfm_of ort config) (λ r n m. refl) config.model_path
        config.intra_op_threads
        (ort.new_runtime config.runtime_lib_path (uint32 config.ort_api_version)),
    refl,
  )

  discovered_env-closed :
      (to_lower : String → String) (path : String) (r : R) (n : Result E N)
      → (discovered_env ort to_lower path r n).0
        ≡ made_env ort "neural-autoscaler-discover" path (pos 1) r n
  discovered_env-closed to_lower path r (err e) = refl
  discovered_env-closed to_lower path r (ok n) =
      elim (Result-cases (ort.new_session r n path (pos 1))) [
        | inl (e, failed) ↦ rw failed refl
        | inr (m, opened) ↦ rw opened refl
      ]

  discovered_runtime-closed :
      (to_lower : String → String) (path : String) (r : Result E R)
      → (discovered_runtime ort to_lower path r).0
        ≡ made_runtime ort "neural-autoscaler-discover" path (pos 1) r
  discovered_runtime-closed to_lower path (err e) = refl
  discovered_runtime-closed to_lower path (ok r) =
      discovered_env-closed to_lower path r (ort.new_env r "neural-autoscaler-discover")

  -- `DiscoverModelFamily` closes each handle that it makes once, the last one first, whatever it returns.
  discover_model_family-closed :
      (to_lower : String → String) (path lib : String) (version : ℤ)
      → (discover_model_family ort to_lower path lib version).0
        ≡ made_runtime ort "neural-autoscaler-discover" path
            (pos 1)
            (ort.new_runtime lib (uint32 version))
  unfolding discover_model_family
  discover_model_family-closed to_lower path lib version =
      discovered_runtime-closed to_lower path (ort.new_runtime lib (uint32 version))
