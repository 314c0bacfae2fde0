-- ===== src/Chat/Provider/Allowed.antt =====
-- ai_service.py: the model that is picked may be used: it is enabled, and no cloud model where those
-- are forbidden.
use ops_inspection_system.Common.{
  ℕ, String, Bool, true, false, Option, none, some, List, ◌≡◌, refl, inl, inr, arith, ◌&&◌, not,
  ◌==◌, string_eq, Bool-cases, Option-cases, All-All, All-find,
}
use ops_inspection_system.Stream.{Answer, answer, refuse}
use ops_inspection_system.Chat.Provider.{
  Provider, AiConfig, Choice, unchosen, zero_text, chosen, malformed, require_enabled,
  cloud_allowed, traditional_provider, first_usable, get_ai_provider, env_provider, with_key,
  use_env, use_first, use_chosen, pick_provider, resolve_provider, or_traditional,
  resolve_provider_or_traditional,
}

-- What the checks grant of a provider that is answered.
abbrev pub IsAllowed : AiConfig → Answer (Provider × String) → Type 0
IsAllowed config (answer (p, key)) = (p.enabled ≡ true) × (cloud_allowed config p ≡ true)
IsAllowed config (refuse code text) = Unit

not_cloud : (b : Bool) → not (not b && false) ≡ true
not_cloud b = ground arith

traditional_provider-allowed :
    (config : AiConfig) (reason : String)
    → cloud_allowed config (traditional_provider reason) ≡ true
unfolding cloud_allowed traditional_provider string_eq
traditional_provider-allowed config reason = not_cloud config.allow_cloud

module _ (decrypt : String → Option String) (hostname : String → String) (show : ℕ → String)
    (config : AiConfig) where
  with_key-IsAllowed :
      (p : Provider)
      → p.enabled ≡ true
      → cloud_allowed config p ≡ true
      → IsAllowed config (with_key decrypt hostname show p)
  unfolding with_key
  with_key-IsAllowed p on allowed = elim (Bool-cases (p.enc_api_key == "")) [
    | inl bare ↦ simp bare (on, allowed)
    | inr locked ↦ elim (Option-cases (decrypt p.enc_api_key)) [
      | inl broken ↦ simp (locked, broken) tt
      | inr (key, found) ↦ simp (locked, found) (on, allowed)
    ]
  ]

  use_env-IsAllowed :
      (o : Option Provider)
      → ((p : Provider) → o ≡ some p → p.enabled ≡ true)
      → IsAllowed config (use_env decrypt hostname show config o)
  unfolding use_env
  use_env-IsAllowed none on = tt
  use_env-IsAllowed (some p) on = elim (Bool-cases (cloud_allowed config p)) [
    | inl allowed ↦ simp allowed (on p refl, refl)
    | inr forbidden ↦ simp forbidden tt
  ]

  env_provider-enabled :
      (p : Provider) → env_provider decrypt hostname show config ≡ some p → p.enabled ≡ true
  unfolding env_provider
  env_provider-enabled p h = ground arith

  use_first-IsAllowed :
      (providers : List Provider)
      → IsAllowed config (use_first decrypt hostname show config (first_usable config providers))
  unfolding use_first first_usable
  use_first-IsAllowed providers = elim (Option-cases (first_usable config providers)) [
    | inl missing ↦
        rw (missing, first_usable)
          (use_env-IsAllowed (env_provider decrypt hostname show config) env_provider-enabled)
    | inr (p, found) ↦
        let (_, usable) =
          All-find (λ q. Unit {0}) (λ q. q.enabled && cloud_allowed config q) providers p
            (All-All (λ q. Unit {0}) (λ q. tt) providers) found in
        rw (found, first_usable) (with_key-IsAllowed p (ground arith) (ground arith))
  ]

  use_chosen-IsAllowed :
      (o : Option Provider) → IsAllowed config (use_chosen decrypt hostname show config o)
  unfolding use_chosen
  use_chosen-IsAllowed none = tt
  use_chosen-IsAllowed (some p) = elim (Bool-cases p.enabled) [
    | inl on ↦ elim (Bool-cases (cloud_allowed config p)) [
      | inl allowed ↦ simp (on, allowed) (with_key-IsAllowed p on allowed)
      | inr forbidden ↦ simp (on, forbidden) tt
    ]
    | inr off ↦ simp off tt
  ]

  pick_provider-IsAllowed :
      (providers : List Provider) (choice : Choice)
      → IsAllowed config (pick_provider decrypt hostname show config providers choice)
  unfolding pick_provider
  pick_provider-IsAllowed providers unchosen = use_first-IsAllowed providers
  pick_provider-IsAllowed providers zero_text = use_first-IsAllowed providers
  pick_provider-IsAllowed providers (chosen id) =
      use_chosen-IsAllowed (get_ai_provider id providers)
  pick_provider-IsAllowed providers malformed = tt

  resolve_provider-IsAllowed :
      (providers : List Provider) (choice : Choice)
      → IsAllowed config (resolve_provider decrypt hostname show config providers choice)
  unfolding resolve_provider require_enabled
  resolve_provider-IsAllowed providers choice = elim (Bool-cases config.enabled) [
    | inl on ↦ simp on (pick_provider-IsAllowed providers choice)
    | inr off ↦ simp off tt
  ]

  -- The provider that a chat is given is enabled, and is no cloud model where those are forbidden;
  -- also where the rule engine stands in.
  pub resolve_provider_or_traditional-IsAllowed :
      (providers : List Provider) (choice : Choice)
      → IsAllowed config
          (resolve_provider_or_traditional decrypt hostname show config providers choice)
  unfolding resolve_provider_or_traditional traditional_provider
  resolve_provider_or_traditional-IsAllowed providers choice =
      stand_in _ (resolve_provider-IsAllowed providers choice)
    where
      stand_in :
          (a : Answer (Provider × String))
          → IsAllowed config a
          → IsAllowed config (or_traditional decrypt hostname show config a)
      stand_in (answer found) h = h
      stand_in (refuse code text) h = ground (arith, traditional_provider-allowed config text)
