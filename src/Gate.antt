-- ===== src/Gate.antt =====
-- app.py: the check before every request, and the decorators `login_required` and `role_required`.
-- `get_user` is the query of models.py; `fresh` is what `secrets.token_urlsafe(32)` returns.
pub mod Laws
mod Tests
use ops_inspection_system.Common.{
  ℕ, ◌-◌, String, Bool, true, false, Option, none, some, List, [], ◌∷◌, ◌&&◌, ◌||◌, not, ◌==◌, ltb,
  contains, string_eq, if◌then◌else◌, starts_with, is_ascii,
}
use ops_inspection_system.Web.{Session, cleared, Request, Account, Reply, answer, to_login}
use ops_inspection_system.Roles.{normalize_role, can_access}

-- `none` where the hook returns nothing and the request goes on to its handler.
abbrev pub Verdict : Type 0
Verdict = Session × Option Reply

abbrev pub mutating : List String
mutating = "POST" ∷ "PUT" ∷ "PATCH" ∷ "DELETE" ∷ []

-- Both ways out of a session that is over: a JSON 401 for the API, the login page for the rest.
unfoldable pub turned_away : Request → String → Reply
turned_away r message = if starts_with r.path "/api/" then answer 401 false message else to_login

-- `session.get('csrf_token', '')` and such.
abbrev pub text_or_empty : Option String → String
text_or_empty none = ""
text_or_empty (some s) = s

-- The CSRF test of a mutating request.
unfoldable pub csrf_fails : Session → Request → Bool
csrf_fails s r =
    r.csrf_header == ""
    || not (is_ascii r.csrf_header)
    || not (r.csrf_header == text_or_empty s.csrf_token)

abbrev pub is_mutating : Request → Bool
is_mutating r = contains mutating r.method

-- The last block: a JSON body of a mutating request must be an object.
unfoldable pub check_body : Session → Request → Verdict
check_body s r =
    if is_mutating r && r.is_json && not r.body_is_object
    then (s, some (answer 400 false "JSON 请求体必须是对象"))
    else (s, none)

unfoldable pub check_csrf : Session → Request → Verdict
unfolding csrf_fails check_body
check_csrf s r =
    if is_mutating r && not (r.endpoint == "api_login") && csrf_fails s r
    then (s, some (answer 403 false "CSRF 校验失败"))
    else check_body s r

-- From `if 'csrf_token' not in session` on.
unfoldable pub check_token : String → Session → Request → Verdict
unfolding check_csrf
check_token fresh s r = elim s.csrf_token [
  | none ↦ check_csrf (record s { csrf_token = some fresh }) r
  | some _ ↦ check_csrf s r
]

-- `float(session.get('last_activity_at', now))`
abbrev pub last_seen : Option ℕ → ℕ → ℕ
last_seen none now = now
last_seen (some t) now = t

-- The block for a session with a name whose account exists; the role is already the account's.
unfoldable pub check_account : ℕ → ℕ → String → Session → Request → String → Verdict
unfolding turned_away check_token
check_account idle_seconds now fresh s r role =
    if not (can_access role r.path r.method) && not (r.endpoint == "static")
    then (s, some (answer 403 false "权限不足"))
    else if ltb idle_seconds (now - last_seen s.last_activity_at now)
    then (cleared, some (turned_away r "登录会话已过期，请重新登录"))
    else check_token fresh (record s { last_activity_at = some now }) r

module _ (get_user : String → Option Account) (idle_seconds : ℕ) where
  unfoldable pub enforce_request_security : ℕ → String → Session → Request → Verdict
  unfolding turned_away check_account check_token
  enforce_request_security now fresh s r = elim s.username [
    | none ↦ check_token fresh s r
    | some name ↦ elim (get_user name) [
      | none ↦ (cleared, some (turned_away r "登录已失效，请重新登录"))
      | some account ↦
          let role = normalize_role account.role in
          check_account idle_seconds now fresh (record s { role = some role }) r role
    ]
  ]

-- `none` where the decorated view runs.
unfoldable pub login_required : Session → Option Reply
login_required s = elim s.username [ none ↦ some to_login | some _ ↦ none ]

unfoldable pub role_required : List String → Session → Request → Option Reply
role_required roles s r = elim s.role [
  | none ↦ some to_login
  | some role ↦
      if not (contains roles role) && not (can_access role r.path r.method)
      then some (answer 403 false "权限不足")
      else none
]
