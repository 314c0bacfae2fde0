-- ===== src/Login/Tests.antt =====
-- Login: tests and instances. The parameters are small functions of the right types.
use ops_inspection_system.Common.{
  ℕ, String, ◌<>◌, Bool, true, false, Option, none, some, List, [], ◌∷◌, ◌≡◌, ◌≢◌, refl, arith,
  ◌==◌, string_eq, pair_eq, number_eq, strip, get, put, pop,
}
use ops_inspection_system.Web.{Session, Request, answer}
use ops_inspection_system.Roles.{normalize_role}
use ops_inspection_system.Login.{
  Auth, Credentials, recent, get_user, is_login_locked, record_login_failure, clear_login_failures,
  refuse_credentials, check_credentials, check_captcha, login_checked, login_failure_key, tidy,
  accept, api_login, verify_password, is_legacy_hash, update_user_password,
}
use ops_inspection_system.Login.Lock.{IsFull, Attempt, login, login_all, locked_out}
use ops_inspection_system.Login.Success.{IsLogin, api_login_success}

abbrev lower : String → String
lower s = s

abbrev digest : String → String
digest s = "sha256:" <> s

abbrev check_hash : String → String → Option Bool
check_hash stored password = some (stored == "scrypt:" <> password)

abbrev new_hash : String → String
new_hash s = "scrypt:" <> s

abbrev request : Request
request = record {
  method = "POST";
  path = "/api/login";
  endpoint = "api_login";
  remote_addr = some "10.0.0.1";
  csrf_header = "";
  is_json = true;
  body_is_object = true;
}

abbrev session : Session
session = record {
  username = none;
  role = none;
  csrf_token = some "t0";
  captcha = some "ab12";
  last_activity_at = none;
}

abbrev auth : List ℕ → Auth
auth times = record {
  users = record { username = "li"; password = "scrypt:pw"; role = "operator" } ∷ [];
  failures = (("10.0.0.1", "li"), times) ∷ [];
}

abbrev given : String → Credentials
given password = record { username = " li "; password = password; captcha = "ab12" }

running : Unit {0}
unfolding api_login tidy login_checked login_failure_key is_login_locked recent check_captcha
    check_credentials refuse_credentials record_login_failure clear_login_failures accept
    verify_password is_legacy_hash update_user_password get_user get put pop strip string_eq pair_eq
    number_eq
running = tt

abbrev attempt : ℕ → String → Attempt lower digest check_hash new_hash
attempt now password = record {
  now = now;
  session = session;
  request = request;
  given = given password;
}

IsFull-lock : IsFull 100 ("10.0.0.1", "li") (auth (100 ∷ 101 ∷ 102 ∷ 103 ∷ 104 ∷ []))
unfolding get string_eq pair_eq
IsFull-lock = record {
  enough = omega arith;
  young = (omega arith, (omega arith, (omega arith, (omega arith, (omega arith, tt)))));
}

key_of_given : login_failure_key lower request (strip (given "pw").username) ≡ ("10.0.0.1", "li")
unfolding running
key_of_given = refl

IsFull-lock_of_given :
    IsFull 100
      (login_failure_key lower request (strip (given "pw").username))
      (auth (100 ∷ 101 ∷ 102 ∷ 103 ∷ 104 ∷ []))
IsFull-lock_of_given = rw key_of_given IsFull-lock

li_ne_empty : ◌≢◌ {A = String} "li" ""
li_ne_empty = cc

pw_ne_empty : ◌≢◌ {A = String} "pw" ""
pw_ne_empty = cc

name_stripped : strip (given "pw").username ≡ "li"
unfolding strip string_eq
name_stripped = refl

password_stripped : strip (given "pw").password ≡ "pw"
unfolding strip string_eq
password_stripped = refl

name_given : strip (given "pw").username ≢ ""
name_given = rw name_stripped li_ne_empty

password_given : strip (given "pw").password ≢ ""
password_given = rw password_stripped pw_ne_empty

-- After a try at 500, the right password and captcha are refused at 1000, within the 900 seconds.
locked_out_example :
    (login lower digest check_hash new_hash
      (login_all lower digest check_hash new_hash
        (auth (100 ∷ 101 ∷ 102 ∷ 103 ∷ 104 ∷ []))
        (attempt 500 "no" ∷ []))
      (attempt 1000 "pw")).2
    ≡ answer 429 false "登录失败次数过多，请15分钟后重试"
locked_out_example =
    locked_out lower digest check_hash new_hash 100 (auth (100 ∷ 101 ∷ 102 ∷ 103 ∷ 104 ∷ []))
      (attempt 500 "no" ∷ []) (attempt 1000 "pw") IsFull-lock_of_given (omega arith, tt)
      (omega arith) name_given password_given

abbrev session_after : Session
session_after = record {
  username = some "li";
  role = some (normalize_role "operator");
  csrf_token = some "t0";
  captcha = none;
  last_activity_at = some 150;
}

logs_in :
    api_login lower digest check_hash new_hash 150 (auth (100 ∷ [])) session request (given "pw")
    ≡ (record (auth []) { failures = [] }, session_after, answer 200 true "登录成功")
unfolding running
logs_in = refl

api_login_success_example :
    IsLogin lower digest check_hash new_hash 150
      (auth (100 ∷ []))
      (record (auth []) { failures = [] })
      session
      session_after
      request
      (tidy lower (given "pw"))
api_login_success_example =
    api_login_success lower digest check_hash new_hash 150 (auth (100 ∷ []))
      (record (auth []) { failures = [] }) session session_after request (given "pw") "登录成功" logs_in

refused :
    api_login lower digest check_hash new_hash 150 (auth (100 ∷ [])) session request (given "no")
    ≡ (auth (100 ∷ 150 ∷ []), record session { captcha = none }, answer 200 false "用户名或密码错误")
unfolding running
refused = refl
