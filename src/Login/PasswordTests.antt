-- ===== src/Login/PasswordTests.antt =====
-- Login.Password: tests and instances. The tests of a character are those of ASCII.
use Prim.Native.Char.{Char, code}
use ops_inspection_system.Common.{
  String, ◌<>◌, Bool, true, false, Option, none, some, List, [], ◌∷◌, ◌≡◌, ◌⊎◌, ◌&&◌, refl, leb,
  string_eq, ◌==◌, strip, text_length,
}
use ops_inspection_system.Web.{Session, Account, answer}
use ops_inspection_system.Gate.{text_or_empty}
use ops_inspection_system.Login.{get_user, update_user_password, verify_password, is_legacy_hash}
use ops_inspection_system.Login.Password.{
  validate_password_strength, change_password, update_checked, api_update_password,
  api_update_password_lem,
}

abbrev is_lower : Char → Bool
is_lower c = leb 97 (code c) && leb (code c) 122

abbrev is_upper : Char → Bool
is_upper c = leb 65 (code c) && leb (code c) 90

abbrev is_digit : Char → Bool
is_digit c = leb 48 (code c) && leb (code c) 57

abbrev digest : String → String
digest s = "sha256:" <> s

abbrev check_hash : String → String → Option Bool
check_hash stored password = some (stored == "scrypt:" <> password)

abbrev new_hash : String → String
new_hash s = "scrypt:" <> s

abbrev users : String → List Account
users password =
    record { username = "li"; password = "scrypt:" <> password; role = "operator" } ∷ []

abbrev session : Session
session = record {
  username = some "li";
  role = some "asset_manager";
  csrf_token = none;
  captcha = none;
  last_activity_at = none;
}

is_changed :
    api_update_password is_lower is_upper is_digit digest check_hash new_hash session "pw"
      " Abcdefg1 "
      (users "pw")
    ≡ (users "Abcdefg1", answer 200 true "密码修改成功")
unfolding api_update_password update_checked change_password validate_password_strength
    verify_password is_legacy_hash get_user update_user_password strip text_length string_eq
is_changed = refl

api_update_password_lem_example :
    ((users "Abcdefg1" ≡ users "pw")
      × ((message : String) × (answer 200 true "密码修改成功" ≡ answer 200 false message)))
    ⊎ ((user : Account) × (get_user (users "pw") (text_or_empty session.username) ≡ some user)
        × ((verify_password digest check_hash user.password (strip "pw")).0 ≡ true)
        × (validate_password_strength is_lower is_upper is_digit (strip " Abcdefg1 ") ≡ true)
        × (get_user (users "Abcdefg1") (text_or_empty session.username)
            ≡ some (record user { password = new_hash (strip " Abcdefg1 ") })))
api_update_password_lem_example =
    api_update_password_lem is_lower is_upper is_digit digest check_hash new_hash session "pw"
      " Abcdefg1 " (users "pw") (users "Abcdefg1") (answer 200 true "密码修改成功") is_changed
