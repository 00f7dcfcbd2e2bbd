-- ===== src/Config.antt =====
-- app/config.py: the settings of each model, with their validators, and the lookup of a model.
-- Reading the YAML file is not modelled.
use talki_llm_admission_sche.Base.{
  Bool, ◌&&◌, ◌||◌, Option, none, some, List, [], ◌∷◌, String, str_eq, if◌then◌else◌,
}
use talki_llm_admission_sche.Base.Int.{ℤ, pos, leb_ℤ}

pub record FallbackPolicyConfig : Type 0 where
  pub enabled : Bool
  pub trigger_on : List String
  pub chain : List String

-- The fields of ModelConfig, and of DefaultsConfig, which has the same ones and no validator.
pub record ModelConfig : Type 0 where
  pub max_concurrency : ℤ
  pub max_queue_depth : ℤ
  pub max_wait_seconds : ℤ
  pub sync_timeout_seconds : ℤ
  pub priority : ℤ
  pub fallback_policy : FallbackPolicyConfig

abbrev is_number : ℤ → ℤ → Bool
is_number a b = leb_ℤ a b && leb_ℤ b a

-- `v in (1, 3, 5, 7, 9)`
unfoldable pub priority_in_range : ℤ → Bool
priority_in_range v =
    is_number v (pos 1)
    || is_number v (pos 3)
    || is_number v (pos 5)
    || is_number v (pos 7)
    || is_number v (pos 9)

unfoldable pub positive_int : ℤ → Bool
positive_int v = leb_ℤ (pos 1) v

-- `ModelConfig(…)`: the validators run on every field, and `none` is the ValidationError.
unfoldable pub validated : ModelConfig → Option ModelConfig
unfolding priority_in_range positive_int
validated c =
    if priority_in_range c.priority
      && positive_int c.max_concurrency
      && positive_int c.max_queue_depth
    then some c
    else none

pub record SchedulerConfig : Type 0 where
  pub worker_poll_timeout_seconds : ℤ
  pub lease_watcher_interval_seconds : ℤ
  pub integrity_check_interval_seconds : ℤ

pub record AppConfig : Type 0 where
  pub scheduler : SchedulerConfig
  pub defaults : ModelConfig
  pub models : List (String × ModelConfig)

unfoldable pub find_model : String → List (String × ModelConfig) → Option ModelConfig
find_model model [] = none
find_model model ((name, c) ∷ l) = if str_eq name model then some c else find_model model l

or_defaults : AppConfig → Option ModelConfig → Option ModelConfig
unfolding validated
or_defaults config (some c) = some c
or_defaults config none = validated config.defaults

unfoldable pub model_config_for : AppConfig → String → Option ModelConfig
unfolding find_model or_defaults
model_config_for config model = or_defaults config (find_model model config.models)

unfoldable pub all_model_names : List (String × ModelConfig) → List String
all_model_names [] = []
all_model_names ((name, c) ∷ l) = name ∷ all_model_names l
