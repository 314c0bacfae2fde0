-- ===== src/Login/Password.antt =====
-- app.py: `api_update_password`, `validate_password_strength` and `api_logout`. Parameters: as in
-- Login, and `is_lower`, `is_upper`, `is_digit`, Python's tests of a character.
use Prim.Native.Char.{Char}
use Prim.Native.String.{String}
use ops_inspection_system.Common.{
  Bool, true, false, Option, none, some, List, ◌≡◌, ◌⊎◌, ◌&&◌, ◌||◌, not, ◌==◌, leb, arith,
  string_eq, if◌then◌else◌, strip, text_length, Option-cases, Bool-cases, inl, inr,
}
use ops_inspection_system.Web.{Session, cleared, Account, Reply, answer}
use ops_inspection_system.Gate.{text_or_empty}
use ops_inspection_system.Login.{get_user, update_user_password, verify_password}

-- `any(test(c) for c in text)`
any_char : (Char → Bool) → String → Bool
any_char test String.[] = false
any_char test (String.◌∷◌ c s) = test c || any_char test s

-- `api_logout`
unfoldable pub api_logout : Session → Session × Reply
api_logout s = (cleared, answer 200 true "")

module _ (is_lower is_upper is_digit : Char → Bool) where
  unfoldable pub validate_password_strength : String → Bool
  unfolding any_char
  validate_password_strength password =
      leb 8 (text_length password)
      && any_char is_lower password
      && any_char is_upper password
      && any_char is_digit password

module _ (is_lower is_upper is_digit : Char → Bool) (sha256_hex : String → String)
    (check_password_hash : String → String → Option Bool) (hash_password : String → String) where
  -- From the query for the account on. The update hits the row that the query found.
  unfoldable pub change_password : Session → String → String → List Account → List Account × Reply
  change_password session old new users =
      let username = text_or_empty session.username in
      elim (get_user users username) [
        | none ↦ (users, answer 200 false "用户不存在")
        | some user ↦
            if (verify_password sha256_hex check_password_hash user.password old).0
            then (update_user_password users username (hash_password new), answer 200 true "密码修改成功")
            else (users, answer 200 false "原密码不正确")
      ]

  unfoldable pub update_checked : Session → String → String → List Account → List Account × Reply
  update_checked session old new users =
      if old == "" || new == ""
      then (users, answer 200 false "密码不能为空")
      else if not (validate_password_strength is_lower is_upper is_digit new)
      then (users, answer 200 false "密码至少8位，且必须包含大小写字母和数字")
      else change_password session old new users

  unfoldable pub api_update_password :
      Session → String → String → List Account → List Account × Reply
  api_update_password session old_password new_password users =
      update_checked session (strip old_password) (strip new_password) users

  get_user-update :
      (users : List Account) (name password : String) (user : Account)
      → get_user users name ≡ some user
      → get_user (update_user_password users name password) name
        ≡ some (record user { password = password })
  unfolding get_user update_user_password
  get_user-update List.[] name password user e = absurd (ground arith)
  get_user-update (List.◌∷◌ a users) name password user e =
      ground (arith, get_user-update users name password user)

  -- Either the accounts stay as they are and the answer is a refusal; or the old password was the
  -- account's, the new one is strong, and the account has the hash of the new password.
  pub api_update_password_lem :
      (session : Session) (old new : String) (users users' : List Account) (reply : Reply)
      → api_update_password session old new users ≡ (users', reply)
      → ((users' ≡ users) × ((message : String) × (reply ≡ answer 200 false message)))
        ⊎ ((user : Account) × (get_user users (text_or_empty session.username) ≡ some user)
            × ((verify_password sha256_hex check_password_hash user.password (strip old)).0 ≡ true)
            × (validate_password_strength is_lower is_upper is_digit (strip new) ≡ true)
            × (get_user users' (text_or_empty session.username)
                ≡ some (record user { password = hash_password (strip new) })))
  unfolding api_update_password update_checked change_password
  api_update_password_lem session old new users users' reply e =
      elim (Bool-cases (strip old == "" || strip new == "")) [
        | inl blank ↦ inl (ground arith, ("密码不能为空", ground arith))
        | inr filled ↦
            elim (Bool-cases (validate_password_strength is_lower is_upper is_digit (strip new))) [
              | inr weak ↦ inl (ground arith, ("密码至少8位，且必须包含大小写字母和数字", ground arith))
              | inl strong ↦ elim (Option-cases (get_user users (text_or_empty session.username))) [
                | inl nobody ↦ inl (ground arith, ("用户不存在", ground arith))
                | inr (user, found) ↦
                    elim (Bool-cases
                      (verify_password sha256_hex check_password_hash user.password
                        (strip old)).0) [
                          | inr wrong ↦ inl (ground arith, ("原密码不正确", ground arith))
                          | inl right ↦ inr (
                            user,
                            found,
                            right,
                            strong,
                            ground (
                              arith,
                              get_user-update users (text_or_empty session.username)
                                  (hash_password (strip new)) user found,
                            ),
                          )
                        ]
              ]
            ]
      ]
