-- ===== src/Login.antt =====
-- app.py: the login handler and the lock after failed logins.
-- Parameters: `lower` is `str.lower`, `sha256_hex` the SHA-256 digest in hexadecimal,
-- `check_password_hash` werkzeug's test (`none` where it raises), `hash_password` the scrypt hash.
-- One call of a handler takes place at one time, `now`. Locks held for the length of one dict
-- access are not modelled: each handler is one step.
use Prim.Native.Char.{Char, code}
use Prim.Native.String.{String}
pub mod Lock
pub mod Success
pub mod Reveal
pub mod Password
mod PasswordTests
mod Tests
use ops_inspection_system.Common.{
  ℕ, ◌+◌, ◌-◌, Bool, true, false, Option, none, some, List, [], ◌∷◌, ◌++◌, ◌&&◌, ◌||◌, not, ◌==◌,
  leb, length, select, string_eq, pair_eq, if◌then◌else◌, strip, Dict, get, put, pop,
}
use ops_inspection_system.Web.{Session, Request, Account, Reply, answer}
use ops_inspection_system.Roles.{normalize_role}
use ops_inspection_system.Gate.{text_or_empty}

-- The table `users` and the dict `_login_failures`, from an address and a name in lower case to
-- the times of the failures.
pub record Auth : Type 0 where
  pub users : List Account
  pub failures : Dict (String × String) (List ℕ)

pub record Credentials : Type 0 where
  pub username : String
  pub password : String
  pub captcha : String

abbrev pub login_max_failures : ℕ
login_max_failures = 5

abbrev pub login_failure_window : ℕ
login_failure_window = 900

-- `models.get_user`
unfoldable pub get_user : List Account → String → Option Account
get_user [] username = none
get_user (a ∷ users) username = if a.username == username then some a else get_user users username

-- `models.update_user_password`
unfoldable pub update_user_password : List Account → String → String → List Account
update_user_password [] username password = []
update_user_password (a ∷ users) username password =
    (if a.username == username then record a { password = password } else a)
    ∷ update_user_password users username password

abbrev pub stamps_or_empty : Option (List ℕ) → List ℕ
stamps_or_empty none = []
stamps_or_empty (some stamps) = stamps

abbrev pub address_or_unknown : Option String → String
address_or_unknown none = "unknown"
address_or_unknown (some a) = if a == "" then "unknown" else a

-- The stamps no older than the window, in a comprehension.
unfoldable pub recent : ℕ → List ℕ → List ℕ
recent now stamps = select (λ stamp. leb now (stamp + login_failure_window)) stamps

-- `_is_login_locked` writes back the pruned stamps.
unfoldable pub is_login_locked : (String × String) → ℕ → Auth → Auth × Bool
is_login_locked key now s =
    let kept = recent now (stamps_or_empty (get s.failures key)) in
    (record s { failures = put s.failures key kept }, leb login_max_failures (length kept))

unfoldable pub record_login_failure : (String × String) → ℕ → Auth → Auth
record_login_failure key now s = record s {
  failures = put s.failures key (stamps_or_empty (get s.failures key) ++ now ∷ []);
}

unfoldable pub clear_login_failures : (String × String) → Auth → Auth
clear_login_failures key s = record s { failures = pop s.failures key }

-- What a handler leaves: the store, the session and the answer.
abbrev pub Outcome : Type 0
Outcome = Auth × Session × Reply

unfoldable pub refuse_credentials : (String × String) → ℕ → Auth → Session → String → Outcome
refuse_credentials key now s session message =
    (record_login_failure key now s, session, answer 200 false message)

unfoldable pub login_failure_key : (String → String) → Request → String → String × String
login_failure_key lower r username = (address_or_unknown r.remote_addr, lower username)

is_hex_digit : Char → Bool
is_hex_digit c = leb b'0' (code c) && leb (code c) b'9' || leb b'a' (code c) && leb (code c) b'f'

-- `re.fullmatch(r'[0-9a-f]{64}', text)`, with the number of digits that are still wanted.
all_hex : ℕ → String → Bool
all_hex Prim.Native.Nat.zero String.[] = true
all_hex (Prim.Native.Nat.suc n) (String.◌∷◌ c s) = is_hex_digit c && all_hex n s
all_hex _ _ = false

unfoldable pub is_legacy_hash : String → Bool
unfolding all_hex is_hex_digit
is_legacy_hash stored = all_hex 64 stored

-- The three texts of `request.json` stripped, the captcha in lower case.
unfoldable pub tidy : (String → String) → Credentials → Credentials
tidy lower given = record {
  username = strip given.username;
  password = strip given.password;
  captcha = lower (strip given.captcha);
}

abbrev pub raised_or : Option Bool → Bool
raised_or none = false
raised_or (some b) = b

-- The second part says that the stored hash is of the old kind.
unfoldable pub verify_password :
    (String → String) → (String → String → Option Bool) → String → String → Bool × Bool
verify_password sha256_hex check_password_hash stored password =
    if is_legacy_hash stored
    then (stored == sha256_hex password, true)
    else (raised_or (check_password_hash stored password), false)

module _ (lower sha256_hex : String → String) (check_password_hash : String → String → Option Bool)
    (hash_password : String → String) where
  -- After the password was accepted.
  unfoldable pub accept :
      (String × String) → ℕ → Auth → Session → Account → Credentials → Bool → Outcome
  accept key now s session user c is_legacy =
      let users =
        if is_legacy
        then update_user_password s.users c.username (hash_password c.password)
        else s.users in
      (
        clear_login_failures key (record s { users = users }),
        record session {
          last_activity_at = some now;
          username = some user.username;
          role = some (normalize_role user.role);
        },
        answer 200 true "登录成功",
      )

  -- From the query for the account on.
  unfoldable pub check_credentials : (String × String) → ℕ → Auth → Session → Credentials → Outcome
  check_credentials key now s session c = elim (get_user s.users c.username) [
    | none ↦ refuse_credentials key now s session "用户名或密码错误"
    | some user ↦
        let (password_ok, is_legacy) =
          verify_password sha256_hex check_password_hash user.password c.password in
        if not password_ok
        then refuse_credentials key now s session "用户名或密码错误"
        else accept key now s session user c is_legacy
  ]

  -- From the captcha on.
  unfoldable pub check_captcha : (String × String) → ℕ → Auth → Session → Credentials → Outcome
  check_captcha key now s session c =
      if c.captcha == ""
      then (s, session, answer 200 false "请输入验证码")
      else if not (c.captcha == lower (text_or_empty session.captcha))
      then refuse_credentials key now s (record session { captcha = none }) "验证码错误"
      else check_credentials key now s (record session { captcha = none }) c

  unfoldable pub login_checked : ℕ → Auth → Session → Request → Credentials → Outcome
  login_checked now s session r c =
      if c.username == "" || c.password == ""
      then (s, session, answer 200 false "用户名和密码不能为空")
      else let key = login_failure_key lower r c.username in
        let (s', locked) = is_login_locked key now s in
        if locked
        then (s', session, answer 429 false "登录失败次数过多，请15分钟后重试")
        else check_captcha key now s' session c

  unfoldable pub api_login : ℕ → Auth → Session → Request → Credentials → Outcome
  api_login now s session r given = login_checked now s session r (tidy lower given)
