-- ===== src/Login/Reveal/Tests.antt =====
-- Login.Reveal: instances. The parameters are small functions of the right types.
use ops_inspection_system.Common.{
  ℕ, ◌≤◌, String, ◌<>◌, Bool, Option, none, some, List, [], ◌∷◌, ◌≡◌, refl, arith, length,
  string_eq, number_eq, pair_eq, ◌==◌, find, get, put, pop,
}
use ops_inspection_system.Login.{get_user, verify_password, recent, stamps_or_empty, is_legacy_hash}
use ops_inspection_system.Login.Reveal.{
  Server, Vault, Asker, Credential, shown, reveal_failure_key, is_reveal_locked,
  record_reveal_failure, clear_reveal_failures, audit, password_ok, credential_of, item_of,
  get_service_accounts, show_credential, check_asker, get_server, api_reveal_server_credentials,
  show_accounts, check_account_asker, api_reveal_service_accounts, reveal_max_failures,
}
use ops_inspection_system.Login.Reveal.Guard.{IsReveal, api_reveal_server_credentials_sound}

abbrev lower : String → String
lower s = s

abbrev digest : String → String
digest s = "sha256:" <> s

abbrev check_hash : String → String → Option Bool
check_hash stored password = some (stored == "scrypt:" <> password)

abbrev decrypt : String → Option String
decrypt s = some ("plain " <> s)

abbrev show : ℕ → String
show n = "1"

abbrev server : Server
server = record {
  id = 7;
  ip = "10.0.0.7";
  name = "db";
  username = "root";
  auth_type = "password";
  enc_password = "e";
  enc_private_key = "";
  enc_key_passphrase = "";
}

abbrev vault : List ℕ → Vault
vault times = record {
  users = record { username = "li"; password = "scrypt:pw"; role = "operator" } ∷ [];
  servers = server ∷ [];
  services = (3, "nginx") ∷ [];
  service_accounts = [];
  failures = (("10.0.0.1", "li"), times) ∷ [];
  audits = [];
}

abbrev asker : Asker
asker = record { username = some "li"; remote_addr = some "10.0.0.1"; password = "pw" }

abbrev credential : Credential
credential = record {
  server_name = "db";
  server_ip = "10.0.0.7";
  username = "root";
  auth_type = "password";
  password = some "plain e";
  private_key = none;
  key_passphrase = none;
}

reveals : Unit {0}
unfolding api_reveal_server_credentials api_reveal_service_accounts check_asker check_account_asker
    show_credential show_accounts is_reveal_locked clear_reveal_failures record_reveal_failure
    reveal_failure_key audit password_ok credential_of item_of get_service_accounts get_server
    get_user verify_password is_legacy_hash recent get put pop find string_eq number_eq pair_eq
reveals = tt

abbrev after : Vault
after =
    (api_reveal_server_credentials lower digest check_hash decrypt show 200 7 asker
      (vault (100 ∷ []))).0

is_shown :
    api_reveal_server_credentials lower digest check_hash decrypt show 200 7 asker
      (vault (100 ∷ []))
    ≡ (after, shown credential)
unfolding reveals
is_shown = refl

api_reveal_server_credentials_sound_example :
    IsReveal lower digest check_hash decrypt show 200 7 asker (vault (100 ∷ [])) after credential
api_reveal_server_credentials_sound_example =
    api_reveal_server_credentials_sound lower digest check_hash decrypt show 200 7 asker
      (vault (100 ∷ [])) after credential is_shown

abbrev after_accounts : Vault
after_accounts =
    (api_reveal_service_accounts lower digest check_hash decrypt show 200 3 asker
      (vault (100 ∷ []))).0

are_shown :
    api_reveal_service_accounts lower digest check_hash decrypt show 200 3 asker (vault (100 ∷ []))
    ≡ (after_accounts, shown [])
unfolding reveals
are_shown = refl

five :
    reveal_max_failures
    ≤ length (
        recent 200 (
          stamps_or_empty
            (get (vault (1 ∷ 2 ∷ 3 ∷ 4 ∷ 5 ∷ [])).failures (reveal_failure_key lower asker))))
unfolding reveals
five = omega arith

found : get_server 7 (vault (1 ∷ 2 ∷ 3 ∷ 4 ∷ 5 ∷ [])) ≡ some server
unfolding reveals
found = refl
