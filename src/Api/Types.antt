-- ===== src/Api/Types.antt =====
-- api/v1alpha1/neuralautoscaler_types.go: the custom resource. A pointer is an `Option`, an `int32`
-- an integer, and a string type of Go a text with its constants.
use neural_autoscaler.Base.{String, Bool, Option, List}
use neural_autoscaler.Base.Int.{ℤ, pos}
use neural_autoscaler.Base.Dict.{Dict}

abbrev pub MetricsSourceType : Type 0
MetricsSourceType = String

abbrev pub metrics_source_metrics_server : MetricsSourceType
metrics_source_metrics_server = "MetricsServer"

abbrev pub metrics_source_prometheus : MetricsSourceType
metrics_source_prometheus = "Prometheus"

abbrev pub ResourceMetric : Type 0
ResourceMetric = String

abbrev pub resource_metric_cpu : ResourceMetric
resource_metric_cpu = "cpu"

abbrev pub resource_metric_memory : ResourceMetric
resource_metric_memory = "memory"

abbrev pub PrometheusQueryType : Type 0
PrometheusQueryType = String

abbrev pub prometheus_query_instant : PrometheusQueryType
prometheus_query_instant = "query"

abbrev pub prometheus_query_range : PrometheusQueryType
prometheus_query_range = "query_range"

pub record CrossVersionObjectReference : Type 0 where
  pub api_group : String
  pub kind : String
  pub name : String

pub record MetricsServerSourceSpec : Type 0 where
  pub target_ref : CrossVersionObjectReference
  pub resources : List ResourceMetric
  pub namespace : String

-- The two fields of Kubernetes' type that the program reads.
pub record SecretKeySelector : Type 0 where
  pub name : String
  pub key : String

pub record PrometheusSourceSpec : Type 0 where
  pub url : String
  pub target_ref : Option CrossVersionObjectReference
  pub resources : List ResourceMetric
  pub namespace : String
  pub query : String
  pub query_type : PrometheusQueryType
  pub step : Option String
  pub lookback : Option String
  pub auth : Option SecretKeySelector

pub record MetricsSourceSpec : Type 0 where
  pub source_type : MetricsSourceType
  pub metrics_server : Option MetricsServerSourceSpec
  pub prometheus : Option PrometheusSourceSpec

abbrev pub default_min_change_percent : ℤ
default_min_change_percent = pos 10

pub record ResourceBoundsSpec : Type 0 where
  pub min : Option String
  pub max : Option String
  pub min_change_percent : Option ℤ

pub record ResizeSpec : Type 0 where
  pub container_name : Option String
  pub min_change_percent : Option ℤ
  pub resources : Dict ResourceBoundsSpec

pub record ForecastSpec : Type 0 where
  pub horizon : Option ℤ
  pub step : Option String

pub record NeuralAutoscalerSpec : Type 0 where
  pub metrics : MetricsSourceSpec
  pub forecast : Option ForecastSpec
  pub resize : Option ResizeSpec

-- What the last forecast was.
pub record ForecastStatus : Type 0 where
  pub horizon : ℤ
  pub model_version : String

-- The fields of Kubernetes' type that the program sets; `T` is a time.
pub record Condition (T : Type 0) : Type 0 where
  pub condition_type : String
  pub status : Bool
  pub reason : String
  pub message : String
  pub last_transition_time : T
  pub observed_generation : ℤ

pub record NeuralAutoscalerStatus (T : Type 0) : Type 0 where
  pub last_fetch_time : Option T
  pub last_resource_values : Dict String
  pub last_metrics_count : ℤ
  pub last_forecast : Option ForecastStatus
  pub conditions : List (Condition T)

-- Of the metadata, what the program reads. `terminating` is a deletion timestamp.
pub record NeuralAutoscaler (T : Type 0) : Type 0 where
  pub namespace : String
  pub name : String
  pub generation : ℤ
  pub terminating : Bool
  pub spec : NeuralAutoscalerSpec
  pub status : NeuralAutoscalerStatus T
