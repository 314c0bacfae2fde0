-- ===== src/Login/Lock.antt =====
-- The lock of a pair of an address and a name after five failed logins.
use ops_inspection_system.Common.{
  ℕ, ◌+◌, ◌≤◌, String, Bool, true, false, Option, List, [], ◌∷◌, ◌++◌, ◌≡◌, ◌≢◌, refl, arith,
  length, All, ◌==◌, string_eq, pair_eq, strip, get, get-put, get-pop, if◌then◌else◌,
}
use ops_inspection_system.Web.{Session, Request, answer}
use ops_inspection_system.Login.{
  Auth, Credentials, stamps_or_empty, recent, is_login_locked, record_login_failure,
  clear_login_failures, refuse_credentials, check_credentials, check_captcha, login_checked,
  login_failure_key, api_login, tidy, accept, login_failure_window, login_max_failures, Outcome,
}

-- The stored times of a pair's failures.
abbrev pub stamps : (String × String) → Auth → List ℕ
stamps key s = stamps_or_empty (get s.failures key)

-- Five failures or more are stored for the pair, none older than `since`.
pub record IsFull (since : ℕ) (key : String × String) (s : Auth) : Type 0 where
  pub enough : login_max_failures ≤ length (stamps key s)
  pub young : All (λ stamp. since ≤ stamp) (stamps key s)

-- Within the window nothing is pruned.
recent-All :
    (since now : ℕ) (xs : List ℕ)
    → now ≤ since + login_failure_window
    → All (λ stamp. since ≤ stamp) xs
    → recent now xs ≡ xs
unfolding recent
recent-All since now [] h a = refl
recent-All since now (x ∷ xs) h (p, a) = ground (arith, recent-All since now xs h a)

stamps-locked :
    (key j : String × String) (now : ℕ) (s : Auth)
    → stamps j (is_login_locked key now s).0
      ≡ (if j == key then recent now (stamps key s) else stamps j s)
unfolding is_login_locked
stamps-locked key j now s = ground (arith, get-put s.failures key j (recent now (stamps key s)))

pub stamps-locked_self :
    (key : String × String) (now : ℕ) (s : Auth)
    → stamps key (is_login_locked key now s).0 ≡ recent now (stamps key s)
stamps-locked_self key now s = ground (arith, stamps-locked key key now s)

stamps-locked_full :
    (since now : ℕ) (key j : String × String) (s : Auth)
    → now ≤ since + login_failure_window
    → IsFull since j s
    → stamps j (is_login_locked key now s).0 ≡ stamps j s
stamps-locked_full since now key j s h f =
    ground (arith, stamps-locked key j now s, recent-All since now (stamps j s) h f.young)

IsFull-of_stamps :
    (since : ℕ) (j : String × String) (s s' : Auth)
    → stamps j s' ≡ stamps j s
    → IsFull since j s
    → IsFull since j s'
IsFull-of_stamps since j s s' e f = record { enough = rw e f.enough; young = rw e f.young }

locked_of_IsFull :
    (since now : ℕ) (key : String × String) (s : Auth)
    → now ≤ since + login_failure_window
    → IsFull since key s
    → (is_login_locked key now s).1 ≡ true
unfolding is_login_locked
locked_of_IsFull since now key s h f = ground (arith, recent-All since now (stamps key s) h f.young)

module _ (lower sha256_hex : String → String) (check_password_hash : String → String → Option Bool)
    (hash_password : String → String) where
  -- Past the lock, a handler touches the stamps of its own pair only.
  stamps-check_captcha :
      (key j : String × String) (now : ℕ) (s : Auth) (session : Session) (c : Credentials)
      → j ≢ key
      → stamps j
          (check_captcha lower sha256_hex check_password_hash hash_password key now s session c).0
        ≡ stamps j s
  unfolding check_captcha check_credentials refuse_credentials record_login_failure accept
      clear_login_failures
  stamps-check_captcha key j now s session c h = ground (
    arith,
    get-put s.failures key j (stamps_or_empty (get s.failures key) ++ now ∷ []),
    get-pop s.failures key j,
  )

  -- A login leaves the stamps of a full pair as they are while the window lasts.
  stamps-login_checked :
      (since now : ℕ) (j : String × String) (s : Auth) (session : Session) (r : Request)
      (c : Credentials)
      → now ≤ since + login_failure_window
      → IsFull since j s
      → stamps j
          (login_checked lower sha256_hex check_password_hash hash_password now s session r c).0
        ≡ stamps j s
  unfolding login_checked
  stamps-login_checked since now j s session r c h f =
      let key = login_failure_key lower r c.username in
      ground (
        arith,
        stamps-locked_full since now key j s h f,
        locked_of_IsFull since now j s h f,
        stamps-check_captcha key j now (is_login_locked key now s).0 session c,
      )

  -- One request to the login handler, with the time of its arrival.
  pub record Attempt : Type 0 where
    pub now : ℕ
    pub session : Session
    pub request : Request
    pub given : Credentials

  abbrev pub login : Auth → Attempt → Outcome
  login s a =
      api_login lower sha256_hex check_password_hash hash_password a.now s a.session a.request
        a.given

  -- The store after a sequence of attempts, each with its own session.
  pub login_all : Auth → List Attempt → Auth
  login_all s [] = s
  login_all s (a ∷ rest) = login_all (login s a).0 rest

  IsFull-login_all :
      (since : ℕ) (j : String × String) (s : Auth) (attempts : List Attempt)
      → IsFull since j s
      → All (λ a. a.now ≤ since + login_failure_window) attempts
      → IsFull since j (login_all s attempts)
  unfolding login_all api_login
  IsFull-login_all since j s [] f h = f
  IsFull-login_all since j s (a ∷ rest) f (h, hs) =
      IsFull-login_all since j (login s a).0 rest
        (IsFull-of_stamps since j s (login s a).0
          (stamps-login_checked since a.now j s a.session a.request (tidy lower a.given) h f) f)
        hs

  -- Once five failures of a pair of an address and a name are stored, none older than `since`,
  -- every login of the pair with a name and a password is answered 429 until the window after
  -- `since` ends: whatever the captcha and the password, and whatever logins came in between.
  pub locked_out :
      (since : ℕ) (s : Auth) (attempts : List Attempt) (a : Attempt)
      → IsFull since (login_failure_key lower a.request (strip a.given.username)) s
      → All (λ b. b.now ≤ since + login_failure_window) attempts
      → a.now ≤ since + login_failure_window
      → strip a.given.username ≢ ""
      → strip a.given.password ≢ ""
      → (login (login_all s attempts) a).2 ≡ answer 429 false "登录失败次数过多，请15分钟后重试"
  unfolding api_login login_checked tidy
  locked_out since s attempts a f hs h named secret =
      let key = login_failure_key lower a.request (strip a.given.username) in
      ground (
        arith,
        locked_of_IsFull since a.now key (login_all s attempts) h
            (IsFull-login_all since key s attempts f hs),
      )
