-- ===== src/Gate/Laws.antt =====
-- What a request has passed when the hook of app.py lets it through.
use ops_inspection_system.Common.{
  ℕ, ◌-◌, ◌≤◌, String, true, Option, none, some, refl, sym, ◌∙◌, inl, inr, Option-cases, ◌≡◌, ◌≢◌,
  ◌⊎◌, arith, string_eq,
}
use mathlib.Core.Option.{some-injective}
use ops_inspection_system.Web.{Session, cleared, Reply, Request, Account}
use ops_inspection_system.Roles.{normalize_role, can_access}
use ops_inspection_system.Gate.{
  is_mutating, text_or_empty, last_seen, check_csrf, check_token, check_account, turned_away,
  enforce_request_security,
}

-- A request with a changing method that is no login carries the session's token, and a JSON body
-- of a changing request is an object.
pub record IsSound (s : Session) (r : Request) : Type 0 where
  pub token :
      is_mutating r ≡ true
      → r.endpoint ≢ "api_login"
      → (r.csrf_header ≢ "") × (s.csrf_token ≡ some r.csrf_header)
  pub object : is_mutating r ≡ true → r.is_json ≡ true → r.body_is_object ≡ true

text_or_empty-some : (o : Option String) (s : String) → s ≢ "" → s ≡ text_or_empty o → o ≡ some s
text_or_empty-some none s h e = absurd (h e)
text_or_empty-some (some t) s h e = ground arith

check_csrf-session : (s s' : Session) (r : Request) → check_csrf s r ≡ (s', none) → s' ≡ s
unfolding check_csrf
check_csrf-session s s' r e = ground arith

check_csrf-token :
    (s s' : Session) (r : Request)
    → check_csrf s r ≡ (s', none)
    → is_mutating r ≡ true
    → r.endpoint ≢ "api_login"
    → (r.csrf_header ≢ "") × (r.csrf_header ≡ text_or_empty s.csrf_token)
unfolding check_csrf
check_csrf-token s s' r e m n = ground arith

check_csrf-object :
    (s s' : Session) (r : Request)
    → check_csrf s r ≡ (s', none)
    → is_mutating r ≡ true
    → r.is_json ≡ true
    → r.body_is_object ≡ true
unfolding check_csrf
check_csrf-object s s' r e m j = ground arith

check_csrf-IsSound :
    (s s' : Session) (r : Request) → check_csrf s r ≡ (s', none) → (s' ≡ s) × IsSound s r
check_csrf-IsSound s s' r e = (
  check_csrf-session s s' r e,
  record {
    token = λ m n.
        let (full, same) = check_csrf-token s s' r e m n in
        (full, text_or_empty-some s.csrf_token r.csrf_header full same);
    object = check_csrf-object s s' r e;
  },
)

-- What one stage leaves of the session when it lets a request through.
abbrev pub Keeps : Session → Session → Request → Type 0
Keeps s s' r =
    (s'.username ≡ s.username)
    × (s'.role ≡ s.role)
    × (s'.last_activity_at ≡ s.last_activity_at)
    × IsSound s' r

Keeps-check_csrf : (s s' : Session) (r : Request) → check_csrf s r ≡ (s', none) → Keeps s s' r
Keeps-check_csrf s s' r e =
    let (same, sound) = check_csrf-IsSound s s' r e in rw same (refl, refl, refl, sound)

Keeps-check_token :
    (fresh : String) (s s' : Session) (r : Request)
    → check_token fresh s r ≡ (s', none)
    → Keeps s s' r
unfolding check_token
Keeps-check_token fresh s s' r e = elim (Option-cases s.csrf_token) [
  | inl missing ↦ Keeps-check_csrf (record s { csrf_token = some fresh }) s' r (ground arith)
  | inr (t, there) ↦ Keeps-check_csrf s s' r (ground arith)
]

module _ (get_user : String → Option Account) (idle_seconds : ℕ) where
  -- What holds of a request that the hook lets through: a session that names a user is that of an
  -- account that still exists, its role is the account's present role, which may reach the path by
  -- the method (static files are open), it was active within the idle limit, and its last activity
  -- is now. Any request with a changing method carries the session's token unless it is the login.
  pub record IsAdmitted (now : ℕ) (s s' : Session) (r : Request) : Type 0 where
    pub name : s'.username ≡ s.username
    pub sound : IsSound s' r
    pub known :
        (u : String)
        → s.username ≡ some u
        → (a : Account) × (get_user u ≡ some a)
          × (s'.role ≡ some (normalize_role a.role))
          × ((can_access (normalize_role a.role) r.path r.method ≡ true) ⊎ (r.endpoint ≡ "static"))
          × (now - last_seen s.last_activity_at now ≤ idle_seconds)
          × (s'.last_activity_at ≡ some now)

  check_account_sound :
      (now : ℕ) (fresh role : String) (s s' : Session) (r : Request)
      → check_account idle_seconds now fresh s r role ≡ (s', none)
      → ((can_access role r.path r.method ≡ true) ⊎ (r.endpoint ≡ "static"))
        × (now - last_seen s.last_activity_at now ≤ idle_seconds)
        × (check_token fresh (record s { last_activity_at = some now }) r ≡ (s', none))
  unfolding check_account
  check_account_sound now fresh role s s' r e = (ground arith, ground arith, ground arith)

  -- The stages for a session that names a user.
  named_sound :
      (now : ℕ) (fresh u : String) (a : Account) (s s' : Session) (r : Request)
      → s.username ≡ some u
      → get_user u ≡ some a
      → check_account idle_seconds now fresh
          (record s { role = some (normalize_role a.role) })
          r
          (normalize_role a.role)
        ≡ (s', none)
      → IsAdmitted now s s' r
  named_sound now fresh u a s s' r named found e =
      let role = normalize_role a.role in
      let (open_path, fresh_enough, rest) =
        check_account_sound now fresh role (record s { role = some role }) s' r e in
      let (same_name, same_role, same_time, sound) =
        Keeps-check_token fresh (record s { role = some role; last_activity_at = some now }) s' r
          rest in
      record {
        name = same_name;
        sound = sound;
        known = λ v p. (
          a,
          rw (← some-injective u v (sym named ∙ p)) found,
          same_role,
          open_path,
          fresh_enough,
          same_time,
        );
      }

  -- A request that the hook lets through bears the session's token if its method changes something and
  -- it is no login, and a JSON object if it changes something and its body is JSON. Where the session
  -- names a user, the account exists, its role may reach the path by the method unless the endpoint is
  -- the static one, and the last activity is within the limit; the session then has the account's role
  -- and the time, and names the same user.
  pub enforce_request_security_sound :
      (now : ℕ) (fresh : String) (s s' : Session) (r : Request)
      → enforce_request_security get_user idle_seconds now fresh s r ≡ (s', none)
      → IsAdmitted now s s' r
  unfolding enforce_request_security
  enforce_request_security_sound now fresh s s' r e = elim (Option-cases s.username) [
    | inl anonymous ↦
        let (same_name, _, _, sound) = Keeps-check_token fresh s s' r (ground arith) in
        record { name = same_name; sound = sound; known = λ u p. absurd (cc) }
    | inr (u, named) ↦ elim (Option-cases (get_user u)) [
      | inl gone ↦ absurd (ground arith)
      | inr (a, found) ↦ named_sound now fresh u a s s' r named found (ground arith)
    ]
  ]

  -- A session whose account is gone is emptied and turned away, whatever the request asks for.
  pub enforce_request_security_gone :
      (now : ℕ) (fresh u : String) (s : Session) (r : Request)
      → s.username ≡ some u
      → get_user u ≡ none
      → (reply : Reply) × (enforce_request_security get_user idle_seconds now fresh s r
          ≡ (cleared, some reply))
  unfolding enforce_request_security
  enforce_request_security_gone now fresh u s r named gone =
      (turned_away r "登录已失效，请重新登录", ground arith)
