-- ===== src/Login/Success.antt =====
-- What a successful login has passed, and what a refused one leaves.
use ops_inspection_system.Common.{
  ℕ, String, Bool, true, false, Option, none, some, [], ◌∷◌, ◌++◌, ◌≡◌, ◌≢◌, arith, Option-cases,
  ◌⊎◌, inl, inr, string_eq, pair_eq, strip, get, get-put_self, get-pop,
}
use ops_inspection_system.Web.{Session, Request, Account, answer}
use ops_inspection_system.Roles.{normalize_role}
use ops_inspection_system.Gate.{text_or_empty}
use ops_inspection_system.Login.{
  Auth, Credentials, recent, get_user, is_login_locked, record_login_failure, clear_login_failures,
  refuse_credentials, check_credentials, check_captcha, login_checked, login_failure_key, tidy,
  accept, api_login, verify_password,
}
use ops_inspection_system.Login.Lock.{stamps, stamps-locked_self}

-- The messages of the refusals that count as a failure.
abbrev pub IsRefusal : String → Type 0
IsRefusal message = (message ≡ "验证码错误") ⊎ (message ≡ "用户名或密码错误")

refusal_ne_blank : (message : String) → IsRefusal message → message ≢ "用户名和密码不能为空"
refusal_ne_blank message (inl p) = cc
refusal_ne_blank message (inr p) = cc

refusal_ne_no_captcha : (message : String) → IsRefusal message → message ≢ "请输入验证码"
refusal_ne_no_captcha message (inl p) = cc
refusal_ne_no_captcha message (inr p) = cc

module _ (lower sha256_hex : String → String) (check_password_hash : String → String → Option Bool)
    (hash_password : String → String) where
  -- What holds when a login succeeds: the pair was not locked, the captcha was that of the session,
  -- the name has an account whose password it is; the session names the account with its present
  -- role and has lost its captcha, and no failure of the pair is left.
  pub record IsLogin (now : ℕ) (s s' : Auth) (session session' : Session) (r : Request)
      (c : Credentials) : Type 0 where
    pub user : Account
    pub found : get_user s.users c.username ≡ some user
    pub unlocked : (is_login_locked (login_failure_key lower r c.username) now s).1 ≡ false
    pub captcha : (c.captcha ≢ "") × (c.captcha ≡ lower (text_or_empty session.captcha))
    pub password :
        (verify_password sha256_hex check_password_hash user.password c.password).0 ≡ true
    pub name : session'.username ≡ some user.username
    pub role : session'.role ≡ some (normalize_role user.role)
    pub used : session'.captcha ≡ none
    pub no_failures : get s'.failures (login_failure_key lower r c.username) ≡ none

  check_credentials_success :
      (key : String × String) (now : ℕ) (s s' : Auth) (session session' : Session) (c : Credentials)
      (message : String)
      → check_credentials lower sha256_hex check_password_hash hash_password key now s session c
        ≡ (s', session', answer 200 true message)
      → (user : Account) × (get_user s.users c.username ≡ some user)
        × ((verify_password sha256_hex check_password_hash user.password c.password).0 ≡ true)
        × (session'.username ≡ some user.username)
        × (session'.role ≡ some (normalize_role user.role))
        × (session'.captcha ≡ session.captcha)
        × (get s'.failures key ≡ none)
  unfolding check_credentials refuse_credentials accept clear_login_failures
  check_credentials_success key now s s' session session' c message e =
      elim (Option-cases (get_user s.users c.username)) [
        | inl unknown ↦ absurd (ground arith)
        | inr (user, found) ↦ (
          user,
          found,
          ground arith,
          ground arith,
          ground arith,
          ground arith,
          ground (arith, get-pop s.failures key key),
        )
      ]

  check_captcha_success :
      (key : String × String) (now : ℕ) (s s' : Auth) (session session' : Session) (c : Credentials)
      (message : String)
      → check_captcha lower sha256_hex check_password_hash hash_password key now s session c
        ≡ (s', session', answer 200 true message)
      → (c.captcha ≢ "")
        × (c.captcha ≡ lower (text_or_empty session.captcha))
        × (check_credentials lower sha256_hex check_password_hash hash_password key now s
              (record session { captcha = none })
              c
            ≡ (s', session', answer 200 true message))
  unfolding check_captcha refuse_credentials
  check_captcha_success key now s s' session session' c message e =
      (ground arith, ground arith, ground arith)

  login_checked_success :
      (now : ℕ) (s s' : Auth) (session session' : Session) (r : Request) (c : Credentials)
      (message : String)
      → login_checked lower sha256_hex check_password_hash hash_password now s session r c
        ≡ (s', session', answer 200 true message)
      → ((is_login_locked (login_failure_key lower r c.username) now s).1 ≡ false)
        × (check_captcha lower sha256_hex check_password_hash hash_password
              (login_failure_key lower r c.username)
              now
              (is_login_locked (login_failure_key lower r c.username) now s).0
              session
              c
            ≡ (s', session', answer 200 true message))
  unfolding login_checked
  login_checked_success now s s' session session' r c message e = (ground arith, ground arith)

  -- A login that is answered with success is one in the sense of `IsLogin`, for the texts of the
  -- request as stripped.
  pub api_login_success :
      (now : ℕ) (s s' : Auth) (session session' : Session) (r : Request) (given : Credentials)
      (message : String)
      → api_login lower sha256_hex check_password_hash hash_password now s session r given
        ≡ (s', session', answer 200 true message)
      → IsLogin now s s' session session' r (tidy lower given)
  unfolding api_login is_login_locked
  api_login_success now s s' session session' r given message e =
      let c = tidy lower given in
      let key = login_failure_key lower r c.username in
      let (unlocked, at_captcha) = login_checked_success now s s' session session' r c message e in
      let (full, same, at_credentials) =
        check_captcha_success key now (is_login_locked key now s).0 s' session session' c message
          at_captcha in
      let (user, found, password, name, role, used, no_failures) =
        check_credentials_success key now (is_login_locked key now s).0 s'
          (record session { captcha = none }) session' c message at_credentials in
      record {
        user = user;
        found = found;
        unlocked = unlocked;
        captcha = (full, same);
        password = password;
        name = name;
        role = role;
        used = used;
        no_failures = no_failures;
      }

  -- Past the lock, a refusal for the captcha, the name or the password adds the present time.
  check_captcha_refused :
      (key : String × String) (now : ℕ) (s s' : Auth) (session session' : Session) (c : Credentials)
      (message : String)
      → IsRefusal message
      → check_captcha lower sha256_hex check_password_hash hash_password key now s session c
        ≡ (s', session', answer 200 false message)
      → stamps key s' ≡ stamps key s ++ now ∷ []
  unfolding check_captcha check_credentials refuse_credentials record_login_failure accept
  check_captcha_refused key now s s' session session' c message m e = ground (
    arith,
    refusal_ne_no_captcha message m,
    get-put_self s.failures key (stamps key s ++ now ∷ []),
  )

  login_checked_refused :
      (now : ℕ) (s s' : Auth) (session session' : Session) (r : Request) (c : Credentials)
      (message : String)
      → IsRefusal message
      → login_checked lower sha256_hex check_password_hash hash_password now s session r c
        ≡ (s', session', answer 200 false message)
      → check_captcha lower sha256_hex check_password_hash hash_password
          (login_failure_key lower r c.username)
          now
          (is_login_locked (login_failure_key lower r c.username) now s).0
          session
          c
        ≡ (s', session', answer 200 false message)
  unfolding login_checked
  login_checked_refused now s s' session session' r c message m e =
      ground (arith, refusal_ne_blank message m)

  -- A login that is refused for its captcha, its name or its password counts as one failure of the
  -- pair, stored behind those of the window.
  pub api_login_refused :
      (now : ℕ) (s s' : Auth) (session session' : Session) (r : Request) (given : Credentials)
      (message : String)
      → IsRefusal message
      → api_login lower sha256_hex check_password_hash hash_password now s session r given
        ≡ (s', session', answer 200 false message)
      → stamps (login_failure_key lower r (strip given.username)) s'
        ≡ recent now (stamps (login_failure_key lower r (strip given.username)) s) ++ now ∷ []
  unfolding api_login tidy
  api_login_refused now s s' session session' r given message m e =
      let c = tidy lower given in
      let key = login_failure_key lower r c.username in
      let past = login_checked_refused now s s' session session' r c message m e in
      ground (
        arith,
        check_captcha_refused key now (is_login_locked key now s).0 s' session session' c message m
            past,
        stamps-locked_self key now s,
      )
