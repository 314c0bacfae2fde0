-- ===== src/Gate/Tests.antt =====
-- Gate: instances.
use ops_inspection_system.Common.{
  String, true, Option, none, some, ◌≡◌, refl, string_eq, contains, ◌==◌, if◌then◌else◌, is_ascii,
}
use ops_inspection_system.Web.{Session, Request, Account}
use ops_inspection_system.Roles.Tests.{policy}
use ops_inspection_system.Gate.{
  enforce_request_security, check_account, check_token, check_csrf, check_body, csrf_fails,
}
use ops_inspection_system.Gate.Laws.{IsAdmitted, enforce_request_security_sound}

-- One account, an asset manager under the old name of the role.
abbrev accounts : String → Option Account
accounts name =
    if name == "li"
    then some (record { username = "li"; password = "x"; role = "operator" })
    else none

abbrev session_of : String → Session
session_of name = record {
  username = some name;
  role = some "viewer";
  csrf_token = some "t0";
  captcha = none;
  last_activity_at = some 100;
}

abbrev request : Request
request = record {
  method = "POST";
  path = "/api/groups";
  endpoint = "api_groups";
  remote_addr = some "10.0.0.1";
  csrf_header = "t0";
  is_json = true;
  body_is_object = true;
}

abbrev session_after : Session
session_after = record {
  username = some "li";
  role = some "asset_manager";
  csrf_token = some "t0";
  captcha = none;
  last_activity_at = some 150;
}

goes_through :
    enforce_request_security accounts 60 150 "t1" (session_of "li") request ≡ (session_after, none)
unfolding policy enforce_request_security check_account check_token check_csrf check_body csrf_fails
    contains string_eq is_ascii
goes_through = refl

enforce_request_security_sound_example :
    IsAdmitted accounts 60 150 (session_of "li") session_after request
enforce_request_security_sound_example =
    enforce_request_security_sound accounts 60 150 "t1" (session_of "li") session_after request
      goes_through

no_account : accounts "wu" ≡ none
unfolding string_eq
no_account = refl
