-- ===== src/Login/Reveal/Guard.antt =====
-- Stored credentials are shown to the account's own password alone, and never without a trace.
use ops_inspection_system.Common.{
  ℕ, ◌≤◌, String, ◌<>◌, Bool, true, false, Option, none, some, List, [], ◌∷◌, ◌++◌, ◌≡◌, ◌≢◌, refl,
  arith, length, Option-cases, inl, inr, string_eq, number_eq, pair_eq, get, get-pop, find,
}
use ops_inspection_system.Web.{Account, Entry}
use ops_inspection_system.Gate.{text_or_empty}
use ops_inspection_system.Login.{get_user, verify_password, recent, stamps_or_empty}
use ops_inspection_system.Login.Reveal.{
  Server, Vault, Asker, Credential, Item, refuse, shown, reveal_max_failures, reveal_failure_key,
  is_reveal_locked, clear_reveal_failures, audit, entry_of, target, kind_text, names_service,
  password_ok, credential_of, show_credential, check_asker, get_server,
  api_reveal_server_credentials, show_accounts, check_account_asker, api_reveal_service_accounts,
}

module _ (lower sha256_hex : String → String) (check_password_hash : String → String → Option Bool)
    (decrypt : String → Option String) (show : ℕ → String) where
  -- What has been checked when something is shown: the pair was not locked, the session names an
  -- account, and the password that was typed is not empty and is the account's.
  pub record IsConfirmed (now : ℕ) (who : Asker) (s : Vault) : Type 0 where
    pub user : Account
    pub found : get_user s.users (text_or_empty who.username) ≡ some user
    pub typed : who.password ≢ ""
    pub right : (verify_password sha256_hex check_password_hash user.password who.password).0 ≡ true
    pub unlocked : (is_reveal_locked (reveal_failure_key lower who) now s).1 ≡ false

  password_ok_sound :
      (who : Asker) (s : Vault)
      → password_ok lower sha256_hex check_password_hash decrypt show who s ≡ true
      → (user : Account) × (get_user s.users (text_or_empty who.username) ≡ some user)
        × (who.password ≢ "")
        × ((verify_password sha256_hex check_password_hash user.password who.password).0 ≡ true)
  unfolding password_ok
  password_ok_sound who s e = elim (Option-cases (get_user s.users (text_or_empty who.username))) [
    | inl nobody ↦ absurd (ground arith)
    | inr (user, found) ↦ (user, found, ground arith, ground arith)
  ]

  -- When credentials of a server are shown, the check was passed, they are those of the server that
  -- was asked for, no failure of the pair is left, and an entry with the result "ok" and the server's
  -- id was added to the audit.
  pub record IsReveal (now server_id : ℕ) (who : Asker) (s s' : Vault) (credential : Credential)
      : Type 0 where
    pub confirmed : IsConfirmed now who s
    pub server : Server
    pub found : get_server server_id s ≡ some server
    pub plain : credential_of decrypt server ≡ some credential
    pub no_failures : get s'.failures (reveal_failure_key lower who) ≡ none
    pub entry : Entry
    pub added : s'.audits ≡ s.audits ++ entry ∷ []
    pub result : entry.result ≡ "ok"
    pub target_id : entry.target_id ≡ server.id

  -- An answer that shows credentials of a server is one in the sense of `IsReveal`.
  pub api_reveal_server_credentials_sound :
      (now server_id : ℕ) (who : Asker) (s s' : Vault) (credential : Credential)
      → api_reveal_server_credentials lower sha256_hex check_password_hash decrypt show now
          server_id who s
        ≡ (s', shown credential)
      → IsReveal now server_id who s s' credential
  unfolding api_reveal_server_credentials check_asker show_credential is_reveal_locked audit
      clear_reveal_failures
  api_reveal_server_credentials_sound now server_id who s s' credential e =
      elim (Option-cases (get_server server_id s)) [
        | inl missing ↦ absurd (ground arith)
        | inr (server, found) ↦
            let key = reveal_failure_key lower who in
            let s₁ = (is_reveal_locked key now s).0 in
            let unlocked : (is_reveal_locked key now s).1 ≡ false = ground arith in
            let ok : password_ok lower sha256_hex check_password_hash decrypt show who s₁ ≡ true =
              ground arith in
            let (user, known, typed, right) = password_ok_sound who s₁ ok in
            elim (Option-cases (credential_of decrypt server)) [
              | inl broken ↦ absurd (ground arith)
              | inr (c, there) ↦ record {
                confirmed = record {
                  user = user;
                  found = known;
                  typed = typed;
                  right = right;
                  unlocked = unlocked;
                };
                server = server;
                found = found;
                plain = ground arith;
                no_failures = ground (arith, get-pop s₁.failures key key);
                entry =
                    entry_of who "server.reveal_credential" "ok" "server" server.id (target server)
                      ("认证方式=" <> kind_text server.auth_type);
                added = ground arith;
                result = refl;
                target_id = refl;
              }
            ]
      ]

  -- When the accounts of a service are shown, the check in the sense of `IsConfirmed` was passed, the
  -- users are as before, and no failure of the pair is left.
  pub api_reveal_service_accounts_sound :
      (now service_id : ℕ) (who : Asker) (s s' : Vault) (items : List Item)
      → api_reveal_service_accounts lower sha256_hex check_password_hash decrypt show now service_id
          who s
        ≡ (s', shown items)
      → IsConfirmed now who s
        × (s'.users ≡ s.users)
        × (get s'.failures (reveal_failure_key lower who) ≡ none)
  unfolding api_reveal_service_accounts check_account_asker show_accounts is_reveal_locked audit
      clear_reveal_failures
  api_reveal_service_accounts_sound now service_id who s s' items e =
      elim (Option-cases (find (names_service service_id) s.services)) [
        | inl missing ↦ absurd (ground arith)
        | inr ((id, name), found) ↦
            let key = reveal_failure_key lower who in
            let s₁ = (is_reveal_locked key now s).0 in
            let ok : password_ok lower sha256_hex check_password_hash decrypt show who s₁ ≡ true =
              ground arith in
            let (user, known, typed, right) = password_ok_sound who s₁ ok in
            (
              record {
                user = user;
                found = known;
                typed = typed;
                right = right;
                unlocked = ground arith;
              },
              ground arith,
              ground (arith, get-pop s₁.failures key key),
            )
      ]

  -- Five failures of the pair within the window, and both are refused with 429, whatever the
  -- password: nothing is shown and nothing is added to the audit.
  pub reveal_locked :
      (now server_id : ℕ) (who : Asker) (s : Vault) (server : Server)
      → reveal_max_failures
        ≤ length (recent now (stamps_or_empty (get s.failures (reveal_failure_key lower who))))
      → get_server server_id s ≡ some server
      → let (s', reply) =
          api_reveal_server_credentials lower sha256_hex check_password_hash decrypt show now
            server_id who s in
        (reply ≡ refuse 429 "验证失败次数过多，请15分钟后重试") × (s'.audits ≡ s.audits)
  unfolding api_reveal_server_credentials is_reveal_locked
  reveal_locked now server_id who s server full found = (ground arith, ground arith)
