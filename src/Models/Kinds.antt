-- ===== src/Models/Kinds.antt =====
-- The kinds of provider of src/acabot/runtime/model/model_registry.py.
use aca_bot.Prelude.{String, Bool, [], ◌∷◌, Dict, lookup, is_some}

pub record ProviderKindMeta : Type 0 where
  pub litellm_prefix : String
  pub default_base_url : String
  pub config_class : String
  pub label : String

meta : String → String → String → String → ProviderKindMeta
meta litellm_prefix default_base_url config_class label = record {
  litellm_prefix = litellm_prefix;
  default_base_url = default_base_url;
  config_class = config_class;
  label = label;
}

unfoldable pub provider_kind_registry : Dict ProviderKindMeta
unfolding meta
provider_kind_registry =
    ("openai_compatible", meta "openai/" "" "openai_like" "OpenAI Compatible")
    ∷ ("deepseek", meta "deepseek/" "https://api.deepseek.com" "openai_like" "DeepSeek")
    ∷ ("groq", meta "groq/" "https://api.groq.com/openai/v1" "openai_like" "Groq")
    ∷ ("moonshot", meta "openai/" "https://api.moonshot.cn/v1" "openai_like" "Moonshot (月之暗面)")
    ∷ ("ollama", meta "ollama/" "http://localhost:11434" "openai_like" "Ollama")
    ∷ ("together_ai", meta "together_ai/" "https://api.together.xyz/v1" "openai_like" "Together AI")
    ∷ ("openrouter", meta "openrouter/" "https://openrouter.ai/api/v1" "openai_like" "OpenRouter")
    ∷ ("mistral", meta "mistral/" "https://api.mistral.ai/v1" "openai_like" "Mistral")
    ∷ (
      "fireworks_ai",
      meta "fireworks_ai/" "https://api.fireworks.ai/inference/v1" "openai_like" "Fireworks AI",
    )
    ∷ ("perplexity", meta "perplexity/" "https://api.perplexity.ai" "openai_like" "Perplexity")
    ∷ ("cohere", meta "cohere_chat/" "https://api.cohere.com/v2" "openai_like" "Cohere")
    ∷ ("xai", meta "xai/" "https://api.x.ai/v1" "openai_like" "xAI (Grok)")
    ∷ (
      "volcengine",
      meta "volcengine/" "https://ark.cn-beijing.volces.com/api/v3" "openai_like" "火山引擎",
    )
    ∷ ("zhipu", meta "openai/" "https://open.bigmodel.cn/api/paas/v4" "openai_like" "智谱 AI")
    ∷ ("siliconflow", meta "openai/" "https://api.siliconflow.cn/v1" "openai_like" "SiliconFlow")
    ∷ ("azure", meta "azure/" "" "openai_like" "Azure OpenAI")
    ∷ ("anthropic", meta "anthropic/" "https://api.anthropic.com" "anthropic" "Anthropic")
    ∷ ("google_gemini", meta "gemini/" "" "google_gemini" "Google Gemini")
    ∷ []

unfoldable pub is_supported_kind : String → Bool
unfolding provider_kind_registry lookup
is_supported_kind kind = is_some (lookup kind provider_kind_registry)
