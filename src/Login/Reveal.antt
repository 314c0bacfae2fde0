-- ===== src/Login/Reveal.antt =====
-- app.py: the second check of the password before stored credentials are shown, with a lock of its
-- own. Parameters: as in Login, and `decrypt`, the decryption of a stored text (`none` where it
-- raises). `now` is the clock's at the call, which is one step.
pub mod Guard
mod Tests
use ops_inspection_system.Common.{
  ℕ, String, ◌<>◌, Bool, true, false, Option, none, some, List, [], ◌∷◌, ◌++◌, ◌&&◌, not, ◌==◌, leb,
  length, map, find, string_eq, number_eq, pair_eq, if◌then◌else◌, Dict, get, put, pop,
}
use ops_inspection_system.Web.{Account, Entry}
use ops_inspection_system.Gate.{text_or_empty}
use ops_inspection_system.Login.{
  get_user, verify_password, recent, stamps_or_empty, address_or_unknown,
}

-- The stored texts of a server and of an account are encrypted; a missing one is the empty text.
pub record Server : Type 0 where
  pub id : ℕ
  pub ip : String
  pub name : String
  pub username : String
  pub auth_type : String
  pub enc_password : String
  pub enc_private_key : String
  pub enc_key_passphrase : String

pub record ServiceAccount : Type 0 where
  pub id : ℕ
  pub service_id : ℕ
  pub purpose : String
  pub username : String
  pub secret_type : String
  pub remark : String
  pub enc_password : String

pub record Vault : Type 0 where
  pub users : List Account
  pub servers : List Server
  pub services : List (ℕ × String)
  pub service_accounts : List ServiceAccount
  pub failures : Dict (String × String) (List ℕ)
  pub audits : List Entry

-- Who asks: the session's name, the address, and the password that was typed.
pub record Asker : Type 0 where
  pub username : Option String
  pub remote_addr : Option String
  pub password : String

pub record Credential : Type 0 where
  pub server_name : String
  pub server_ip : String
  pub username : String
  pub auth_type : String
  pub password : Option String
  pub private_key : Option String
  pub key_passphrase : Option String

pub record Item : Type 0 where
  pub id : ℕ
  pub purpose : String
  pub username : String
  pub secret_type : String
  pub remark : String
  pub password : Option String
  pub error : String

-- A refusal with its status, or what is shown.
pub data Reply {ℓ} (A : Type ℓ) : Type ℓ where
  refuse : ℕ → String → Reply A
  shown : A → Reply A

abbrev pub reveal_max_failures : ℕ
reveal_max_failures = 5

unfoldable pub reveal_failure_key : (String → String) → Asker → String × String
reveal_failure_key lower who =
    (address_or_unknown who.remote_addr, lower (text_or_empty who.username))

-- `_is_reveal_locked`; the window is that of the login's lock, 15 minutes.
unfoldable pub is_reveal_locked : (String × String) → ℕ → Vault → Vault × Bool
is_reveal_locked key now s =
    let kept = recent now (stamps_or_empty (get s.failures key)) in
    (record s { failures = put s.failures key kept }, leb reveal_max_failures (length kept))

unfoldable pub record_reveal_failure : (String × String) → ℕ → Vault → Vault
record_reveal_failure key now s = record s {
  failures = put s.failures key (stamps_or_empty (get s.failures key) ++ now ∷ []);
}

unfoldable pub clear_reveal_failures : (String × String) → Vault → Vault
clear_reveal_failures key s = record s { failures = pop s.failures key }

abbrev pub entry_of : Asker → String → String → String → ℕ → String → String → Entry
entry_of who action result target_type target_id target_name detail = record {
  username = text_or_empty who.username;
  action = action;
  result = result;
  target_type = target_type;
  target_id = target_id;
  target_name = target_name;
  detail = detail;
  client_ip = text_or_empty who.remote_addr;
}

-- `record_audit` for the asker.
unfoldable pub audit : Asker → String → String → String → ℕ → String → String → Vault → Vault
audit who action result target_type target_id target_name detail s = record s {
  audits = s.audits ++ entry_of who action result target_type target_id target_name detail ∷ [];
}

abbrev or_text : String → String → String
or_text text other = if text == "" then other else text

abbrev key_credential : Server → String → Option String → Credential
key_credential server key passphrase = record {
  server_name = server.name;
  server_ip = server.ip;
  username = server.username;
  auth_type = or_text server.auth_type "password";
  password = none;
  private_key = some key;
  key_passphrase = passphrase;
}

abbrev password_credential : Server → String → Credential
password_credential server password = record {
  server_name = server.name;
  server_ip = server.ip;
  username = server.username;
  auth_type = or_text server.auth_type "password";
  password = some password;
  private_key = none;
  key_passphrase = none;
}

abbrev pub target : Server → String
target server = or_text server.name server.ip

abbrev pub kind_text : String → String
kind_text auth_type = if auth_type == "key" then "SSH私钥" else "密码"

abbrev has_id : ℕ → Server → Bool
has_id id server = server.id == id

unfoldable pub get_server : ℕ → Vault → Option Server
get_server id s = find (has_id id) s.servers

unfoldable pub get_service_accounts : ℕ → List ServiceAccount → List ServiceAccount
get_service_accounts service_id [] = []
get_service_accounts service_id (row ∷ rows) =
    let rest = get_service_accounts service_id rows in
    if row.service_id == service_id then row ∷ rest else rest

abbrev pub names_service : ℕ → (ℕ × String) → Bool
names_service id (other, name) = other == id

module _ (decrypt : String → Option String) where
  -- The passphrase may be missing; `none` where a decryption raises.
  abbrev decrypt_passphrase : String → Option (Option String)
  decrypt_passphrase text =
      if text == ""
      then some none
      else elim (decrypt text) [ none ↦ none | some plain ↦ some (some plain) ]

  -- `decrypt_server_credentials` and the dict `credential`; `none` where a decryption raises.
  unfoldable pub credential_of : Server → Option Credential
  credential_of server =
      if server.auth_type == "key"
      then elim (decrypt server.enc_private_key) [
        | none ↦ none
        | some key ↦ elim (decrypt_passphrase server.enc_key_passphrase) [
          | none ↦ none
          | some passphrase ↦ some (key_credential server key passphrase)
        ]
      ]
      else elim (decrypt server.enc_password) [
        | none ↦ none
        | some password ↦ some (password_credential server password)
      ]

  -- What is shown of an account whose text cannot be decrypted has no password and says so.
  unfoldable pub item_of : ServiceAccount → Item
  item_of row =
      let plain = if row.enc_password == "" then none else decrypt row.enc_password in
      record {
        id = row.id;
        purpose = row.purpose;
        username = row.username;
        secret_type = or_text row.secret_type "密码";
        remark = row.remark;
        password = plain;
        error = elim plain [ some _ ↦ "" | none ↦ if row.enc_password == "" then "" else "解密失败" ];
      }

module _ (lower sha256_hex : String → String) (check_password_hash : String → String → Option Bool)
    (decrypt : String → Option String) (show : ℕ → String) where
  -- `bool(supplied) and bool(user) and verify_password(user['password'], supplied)[0]`
  unfoldable pub password_ok : Asker → Vault → Bool
  password_ok who s = elim (get_user s.users (text_or_empty who.username)) [
    | none ↦ false
    | some user ↦
        not (who.password == "")
        && (verify_password sha256_hex check_password_hash user.password who.password).0
  ]

  -- After the password was found right.
  unfoldable pub show_credential :
      (String × String) → Asker → Server → Vault → Vault × Reply Credential
  show_credential key who server s = elim (credential_of decrypt server) [
    | none ↦ (
      audit who "server.reveal_credential" "error" "server" server.id (target server) "凭据解密失败" s,
      refuse 500 "服务器凭据解密失败，请检查系统密钥",
    )
    | some credential ↦ (
      audit who "server.reveal_credential" "ok" "server" server.id (target server)
          ("认证方式=" <> kind_text server.auth_type) (clear_reveal_failures key s),
      shown credential,
    )
  ]

  -- From the check of the password on.
  unfoldable pub check_asker :
      (String × String) → ℕ → Asker → Server → Vault → Vault × Reply Credential
  check_asker key now who server s =
      if password_ok who s then show_credential key who server s else (
        audit who "server.reveal_credential" "denied" "server" server.id (target server) ""
            (record_reveal_failure key now s),
        refuse 403 "当前登录密码不正确",
      )

  unfoldable pub api_reveal_server_credentials : ℕ → ℕ → Asker → Vault → Vault × Reply Credential
  api_reveal_server_credentials now server_id who s = elim (get_server server_id s) [
    | none ↦ (s, refuse 404 "服务器不存在")
    | some server ↦
        let key = reveal_failure_key lower who in
        let (s₁, locked) = is_reveal_locked key now s in
        if locked then (s₁, refuse 429 "验证失败次数过多，请15分钟后重试") else check_asker key now who server s₁
  ]

  unfoldable pub show_accounts :
      (String × String) → Asker → ℕ → String → Vault → Vault × Reply (List Item)
  show_accounts key who service_id name s =
      let items = map (item_of decrypt) (get_service_accounts service_id s.service_accounts) in
      (
        audit who "service.reveal_account" "ok" "service" service_id name
            ("共 " <> show (length items) <> " 个账号") (clear_reveal_failures key s),
        shown items,
      )

  unfoldable pub check_account_asker :
      (String × String) → ℕ → Asker → ℕ → String → Vault → Vault × Reply (List Item)
  check_account_asker key now who service_id name s =
      if password_ok who s then show_accounts key who service_id name s else (
        audit who "service.reveal_account" "denied" "service" service_id name ""
            (record_reveal_failure key now s),
        refuse 403 "当前登录密码不正确",
      )

  unfoldable pub api_reveal_service_accounts : ℕ → ℕ → Asker → Vault → Vault × Reply (List Item)
  api_reveal_service_accounts now service_id who s =
      elim (find (names_service service_id) s.services) [
        | none ↦ (s, refuse 404 "服务信息不存在")
        | some (id, name) ↦
            let key = reveal_failure_key lower who in
            let (s₁, locked) = is_reveal_locked key now s in
            if locked
            then (s₁, refuse 429 "验证失败次数过多，请15分钟后重试")
            else check_account_asker key now who service_id name s₁
      ]
