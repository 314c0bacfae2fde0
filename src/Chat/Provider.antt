-- ===== src/Chat/Provider.antt =====
-- ai_service.py: which model answers a chat, and the checks before one starts. Parameters: `decrypt`
-- is `aes_gcm_decrypt` with the key, `none` where it raises; `hostname` the host of a URL in small
-- letters, empty where there is none; `show` the decimal text of a number. The settings of the client
-- (timeouts, headers, temperature) are left out.
pub mod Allowed
use ops_inspection_system.Common.{
  ℕ, String, ◌<>◌, Bool, true, false, Option, none, some, List, [], ◌∷◌, ◌&&◌, ◌||◌, not, ◌==◌, leb,
  any, contains, find, string_eq, number_eq, if◌then◌else◌, starts_with, option_eq,
}
use ops_inspection_system.Stream.{Answer, answer, refuse}

-- A row of `ai_providers`, or one that the code makes up.
pub record Provider : Type 0 where
  pub id : Option ℕ
  pub name : String
  pub base_url : String
  pub model : String
  pub enc_api_key : String
  pub deployment : String
  pub supports_tools : Bool
  pub enabled : Bool
  pub traditional_fallback : Bool
  pub fallback_reason : String

-- config.py
pub record AiConfig : Type 0 where
  pub enabled : Bool
  pub roles : List String
  pub allow_cloud : Bool
  pub base_url : String
  pub model : String
  pub api_key : String
  pub daily_token_limit : ℕ
  pub traditional_fallback : Bool
  pub tool_mode : String
  pub input_max_chars : ℕ
  pub max_concurrency : ℕ

-- A `provider_id` of a request: left out (also as "" or 0), the text "0", which `or` keeps, a number, or
-- a text that is none.
pub data Choice : Type 0 where
  unchosen zero_text : Choice
  chosen : ℕ → Choice
  malformed : Choice

-- `role_allowed`
unfoldable pub role_allowed : AiConfig → String → Bool
role_allowed config role = role == "admin" || contains config.roles role

-- `require_enabled`, before what follows it.
unfoldable pub require_enabled {ℓ} : {A : Type ℓ} → AiConfig → Answer A → Answer A
require_enabled config rest =
    if config.enabled then rest else refuse 403 "AI 智能运维功能未启用（OPS_AI_ENABLED=0）"

-- `_cloud_allowed`
unfoldable pub cloud_allowed : AiConfig → Provider → Bool
cloud_allowed config p = not (not config.allow_cloud && p.deployment == "cloud")

-- `check_daily_limit`: whether `used` tokens of today reach the limit; 0 is no limit.
unfoldable pub over_daily_limit : AiConfig → ℕ → Bool
over_daily_limit config used =
    not (config.daily_token_limit == 0) && leb config.daily_token_limit used

abbrev is_local : String → Bool
is_local host =
    contains ("127.0.0.1" ∷ "localhost" ∷ "::1" ∷ "0.0.0.0" ∷ []) host
    || any (starts_with host) ("10." ∷ "192.168." ∷ "172.1" ∷ "172.2" ∷ "172.30." ∷ "172.31." ∷ [])

-- `_traditional_provider`
unfoldable pub traditional_provider : String → Provider
traditional_provider reason = record {
  id = none;
  name = "传统运维";
  base_url = "";
  model = "传统运维规则引擎";
  enc_api_key = "";
  deployment = "local";
  supports_tools = false;
  enabled = true;
  traditional_fallback = true;
  fallback_reason = reason;
}

-- `list_ai_providers` gives the rows in the order of its query: this is the first that may be used.
unfoldable pub first_usable : AiConfig → List Provider → Option Provider
first_usable config providers = find (λ p. p.enabled && cloud_allowed config p) providers

-- `get_ai_provider`
unfoldable pub get_ai_provider : ℕ → List Provider → Option Provider
get_ai_provider id providers = find (λ p. p.id == some id) providers

module _ (decrypt : String → Option String) (hostname : String → String) (show : ℕ → String) where
  -- `env_provider`
  unfoldable pub env_provider : AiConfig → Option Provider
  env_provider config =
      if config.base_url == ""
      then none
      else some (record {
        id = none;
        name = "环境变量配置（只读）";
        base_url = config.base_url;
        model = config.model;
        enc_api_key = "";
        deployment = if is_local (hostname config.base_url) then "local" else "cloud";
        supports_tools = true;
        enabled = true;
        traditional_fallback = false;
        fallback_reason = "";
      })

  -- A provider with its key, `_decrypt_api_key`.
  unfoldable pub with_key : Provider → Answer (Provider × String)
  with_key p = if p.enc_api_key == "" then answer (p, "") else elim (decrypt p.enc_api_key) [
    | none ↦ refuse 400 "API Key 解密失败（可能更换过 OPS_AES_KEY），请在设置里重新保存"
    | some key ↦ answer (p, key)
  ]

  unfoldable pub use_env : AiConfig → Option Provider → Answer (Provider × String)
  use_env config none = refuse 400 "还没有可用的模型配置，请先在「设置」里添加一个大模型"
  use_env config (some p) =
      if cloud_allowed config p
      then answer (p, config.api_key)
      else refuse 400 "还没有可用的模型配置，请先在「设置」里添加一个大模型"

  -- Without a choice.
  unfoldable pub use_first : AiConfig → Option Provider → Answer (Provider × String)
  use_first config none = use_env config (env_provider config)
  use_first config (some p) = with_key p

  unfoldable pub use_chosen : AiConfig → Option Provider → Answer (Provider × String)
  use_chosen config none = refuse 404 "模型配置不存在"
  use_chosen config (some p) =
      if not p.enabled
      then refuse 400 ("模型配置「" <> p.name <> "」已被禁用")
      else if not (cloud_allowed config p)
      then refuse 403 "已禁止使用云端大模型（OPS_AI_ALLOW_CLOUD=0）"
      else with_key p

  unfoldable pub pick_provider : AiConfig → List Provider → Choice → Answer (Provider × String)
  pick_provider config providers unchosen = use_first config (first_usable config providers)
  pick_provider config providers zero_text = use_first config (first_usable config providers)
  pick_provider config providers (chosen id) = use_chosen config (get_ai_provider id providers)
  pick_provider config providers malformed = refuse 400 "provider_id 不合法"

  -- `resolve_provider`
  unfoldable pub resolve_provider : AiConfig → List Provider → Choice → Answer (Provider × String)
  resolve_provider config providers choice =
      require_enabled config (pick_provider config providers choice)

  abbrev pub or_traditional : AiConfig → Answer (Provider × String) → Answer (Provider × String)
  or_traditional config (answer found) = answer found
  or_traditional config (refuse code text) =
      if config.traditional_fallback
      then answer (traditional_provider text, "")
      else refuse code text

  -- `_resolve_provider_or_traditional`
  unfoldable pub resolve_provider_or_traditional :
      AiConfig → List Provider → Choice → Answer (Provider × String)
  resolve_provider_or_traditional config providers choice =
      or_traditional config (resolve_provider config providers choice)

-- `_tools_enabled`
unfoldable pub tools_enabled : AiConfig → Provider → Bool
tools_enabled config p =
    not p.traditional_fallback && not (config.tool_mode == "off") && p.supports_tools
