-- ===== src/Lib.antt =====
-- Verification of the neural autoscaler: the operator of Kubernetes that reads the usage of a workload,
-- forecasts it with an ONNX model, and resizes the requests of the workload's pods in place.
--
-- The parts and their files:
-- * Api models api/v1alpha1. Types has the records of neuralautoscaler_types.go, a pointer being an
--   Option. Api.Resize has ValidateResize (resize_validation.go), ClampQuantity (policy_clamp.go) and
--   EffectiveMinChangePercent (min_change_percent.go). Api.Source has ValidateMetricsSource and
--   ValidateForecast (metrics_source_validation.go), and Api.Duration SetDuration (duration.go).
--   Api.Quantity is resource.Quantity of Kubernetes: a record of its operations, which is a parameter,
--   and the laws of its order.
-- * Metrics.History models internal/metrics/history.go: RingBuffer and HistoryStore, with one function for each
--   method. The methods hold the store's lock, so a run of several goroutines is a list of calls.
--   Metrics.Pods models ResolvePodNames (workload_pods.go), Metrics.Server the fetch from the metrics
--   server and Metrics.Keys the keys of the history (metrics_server.go). The clients are parameters.
--   Metrics.Prometheus models prometheus.go and prometheus_queries.go: Query builds queries, Merge makes a series
--   of an answer, Fetch is the fetcher. Metrics.Factory is NewFetcher of factory.go.
-- * Forecast models internal/forecast: types.go, validate.go, and Format format.go.
-- * Onnx models internal/forecast/onnx: Preprocess and Chronos the tensors (preprocess.go for TimesFM,
--   chronos2_preprocess.go for Chronos-2), a tensor being the list of its numbers; TimesFm and Chronos2 the
--   forecasts (timesfm.go, chronos2.go); Config the configuration (config.go); Handles what is opened and
--   closed (with discover.go and factory.go). Session is the ONNX runtime, a record of its operations.
-- * Controller models internal/controller. Environment has the cluster, a value of an unknown type W, and what
--   reads and writes it; Reconcile is Reconcile of neuralautoscaler_controller.go, a function from a world
--   and a controller to their successors, where none is a panic; Process is its loop over the
--   resources, History and Predict are the functions that the loop calls, Choice picks the resources and
--   the namespace, and Report says a forecast in words. Reconcile.Calls reads a reconciliation as calls of the history, and Reconcile.Ends is the
--   relation of the ways in which it ends. Program puts in the program's own factory.
-- * Args models cmd/args/args.go.
-- * Resize models internal/resize: Peak (peak.go), Target (target.go), Threshold (threshold.go), Actuator
--   and Apply (actuator.go). Apply takes the client of Kubernetes as a parameter over an unknown world:
--   what Get answers, and the world and the answer after an update.
-- * Base has what they share. Int is int64 with wrap-around, Float is float64 as a parameter with the
--   laws of its order (NaN included), Dict is a Go map as the entries in the order of an iteration, Result
--   is a value or an error, Text is a part of the package strings, Decimal is strconv.FormatInt.
-- * Tests runs the definitions, and uses the theorems at concrete inputs.
--
-- How they work together: Controller.Reconcile gets a fetcher from the factory and stores samples (Metrics),
-- asks a forecaster, the interface Predictor, for a forecast of the series (Forecast, Onnx), and calls
-- Apply with the forecasts and the recent samples (Resize), under the bounds of the custom resource (Api).
-- The factory is a record, Environment.Factory, that Metrics.Factory fills in Controller.Program.
--
-- The theorems that compare floats or quantities take the laws of their order as a hypothesis (IsStrict,
-- IsOrdered); Base.Float and Api.Quantity have instances for which the laws hold.
--
-- Loops are recursion on a list or on a count; nothing runs on fuel. The counts are those of the source:
-- a ring holds 512 samples by default, Chronos-2 reads 512 samples and gives 64 steps.
--
-- A reading of the clock is a function of the world. Loops over Go maps take the entries in any order.
--
-- Not modelled: the ONNX runtime, HTTP and logging, which are not the program's own logic, with most
-- texts of messages; the start of the manager in main.go; and the generated code.
pub mod Base
pub mod Metrics
pub mod Api
pub mod Resize
pub mod Forecast
pub mod Onnx
pub mod Args
pub mod Controller
pub mod Tests
