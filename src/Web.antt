-- ===== src/Web.antt =====
-- What the request handlers of app.py see of Flask: the signed session, the request and the reply.
-- A session key that is absent is `none`. Times are the clock's, as whole ticks.
use ops_inspection_system.Common.{ℕ, String, Bool, Option, none}

pub record Session : Type 0 where
  pub username : Option String
  pub role : Option String
  pub csrf_token : Option String
  pub captcha : Option String
  pub last_activity_at : Option ℕ

-- `session.clear()`
abbrev pub cleared : Session
cleared = record {
  username = none;
  role = none;
  csrf_token = none;
  captcha = none;
  last_activity_at = none;
}

-- `csrf_header` is `request.headers.get('X-CSRFToken', '')`; `is_json` and `body_is_object` say what
-- `request.is_json` and `isinstance(request.get_json(), dict)` give.
pub record Request : Type 0 where
  pub method : String
  pub path : String
  pub endpoint : String
  pub remote_addr : Option String
  pub csrf_header : String
  pub is_json : Bool
  pub body_is_object : Bool

-- A row of the table `users`, the columns that the handlers read.
pub record Account : Type 0 where
  pub username : String
  pub password : String
  pub role : String

-- A JSON answer with its status, or a redirection to the login page.
pub data Reply : Type 0 where
  answer : ℕ → Bool → String → Reply
  to_login : Reply

-- A row of `audit_logs` but its id and time.
pub record Entry : Type 0 where
  pub username : String
  pub action : String
  pub result : String
  pub target_type : String
  pub target_id : ℕ
  pub target_name : String
  pub detail : String
  pub client_ip : String
