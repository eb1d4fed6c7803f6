-- ===== src/Models/Registry.antt =====
-- The data of src/acabot/runtime/model/model_registry.py. The type V is that of the values in the
-- parameters, which nothing here reads. A timeout counts a fixed fraction of a second.
use aca_bot.Prelude.{ℕ, String, Bool, false, Option, List, Dict, ltb}

-- Python's `int`: `pos n` is n and `negsuc n` is -(n + 1).
pub data ℤ : Type 0 where
  pos : ℕ → ℤ
  negsuc : ℕ → ℤ

abbrev pub is_positive : ℤ → Bool
is_positive (pos n) = ltb 0 n
is_positive (negsuc n) = false

pub record DefaultParams (V : Type 0) : Type 0 where
  pub default_headers : Dict String
  pub default_query : Dict V
  pub default_body : Dict V

pub record OpenAiCompatibleProviderConfig (V : Type 0) : Type 0 where
  pub base_url : String
  pub api_key_env : String
  pub api_key : String
  pub defaults : DefaultParams V

pub record AnthropicProviderConfig (V : Type 0) : Type 0 where
  pub api_key_env : String
  pub api_key : String
  pub base_url : String
  pub anthropic_version : String
  pub defaults : DefaultParams V

pub record GoogleGeminiProviderConfig (V : Type 0) : Type 0 where
  pub api_key_env : String
  pub api_key : String
  pub base_url : String
  pub api_version : String
  pub project_id : String
  pub location : String
  pub use_vertex_ai : Bool
  pub defaults : DefaultParams V

pub data ProviderConfig (V : Type 0) : Type 0 where
  open_ai_config : OpenAiCompatibleProviderConfig V → ProviderConfig V
  anthropic_config : AnthropicProviderConfig V → ProviderConfig V
  google_gemini_config : GoogleGeminiProviderConfig V → ProviderConfig V

pub record ModelProvider (V : Type 0) : Type 0 where
  pub provider_id : String
  pub kind : String
  pub config : ProviderConfig V
  pub name : String

pub record ModelPreset (V : Type 0) : Type 0 where
  pub preset_id : String
  pub provider_id : String
  pub model : String
  pub task_kind : String
  pub context_window : ℤ
  pub capabilities : List String
  pub max_output_tokens : Option ℤ
  pub model_params : Dict V

pub record ModelBinding : Type 0 where
  pub binding_id : String
  pub target_id : String
  pub preset_ids : List String
  pub timeout_sec : Option ℤ

pub record ModelRegistry (V : Type 0) : Type 0 where
  pub providers : Dict (ModelProvider V)
  pub presets : Dict (ModelPreset V)
  pub bindings : Dict ModelBinding

abbrev pub config_api_key_env : {V : Type 0} → ProviderConfig V → String
config_api_key_env (open_ai_config c) = c.api_key_env
config_api_key_env (anthropic_config c) = c.api_key_env
config_api_key_env (google_gemini_config c) = c.api_key_env

abbrev pub config_api_key : {V : Type 0} → ProviderConfig V → String
config_api_key (open_ai_config c) = c.api_key
config_api_key (anthropic_config c) = c.api_key
config_api_key (google_gemini_config c) = c.api_key

abbrev pub config_base_url : {V : Type 0} → ProviderConfig V → String
config_base_url (open_ai_config c) = c.base_url
config_base_url (anthropic_config c) = c.base_url
config_base_url (google_gemini_config c) = c.base_url

-- `getattr(config, "api_version", "")`
abbrev pub config_api_version : {V : Type 0} → ProviderConfig V → String
config_api_version (google_gemini_config c) = c.api_version
config_api_version _ = ""
