-- ===== src/Json/Redact.antt =====
-- ai_service.py: `_redact_sensitive_payload`. `lower` is `str.lower`.
use ops_inspection_system.Common.{
  String, Bool, true, List, [], ◌∷◌, ◌≡◌, ap, refl, any, occurs_in, Bool-cases, inl, inr,
  if◌then◌else◌,
}
use ops_inspection_system.Json.{
  Json, null, bool, num, str, arr, obj, Items, nil, cons, Fields, end, field,
}

abbrev pub sensitive_arg_parts : List String
sensitive_arg_parts =
    "password" ∷ "passwd" ∷ "private_key" ∷ "passphrase" ∷ "secret" ∷ "token" ∷ "api_key" ∷ []

-- `any(part in lowered for part in _SENSITIVE_ARG_PARTS)`
unfoldable pub is_sensitive : (String → String) → String → Bool
is_sensitive lower key = any (λ part. occurs_in part (lower key)) sensitive_arg_parts

unfoldable mutual
  pub redact : (String → String) → Json → Json
  redact lower null = null
  redact lower (bool b) = bool b
  redact lower (num n) = num n
  redact lower (str s) = str s
  redact lower (arr xs) = arr (redact_items lower xs)
  redact lower (obj d) = obj (redact_fields lower d)

  pub redact_items : (String → String) → Items → Items
  redact_items lower nil = nil
  redact_items lower (cons v xs) = cons (redact lower v) (redact_items lower xs)

  pub redact_fields : (String → String) → Fields → Fields
  redact_fields lower end = end
  redact_fields lower (field key v d) =
      field key (if is_sensitive lower key then str "***" else redact lower v)
        (redact_fields lower d)

-- No key of a sensitive name, at any depth, holds anything but the mark.
mutual
  pub IsClean : (String → String) → Json → Type 0
  IsClean lower null = Unit
  IsClean lower (bool b) = Unit
  IsClean lower (num n) = Unit
  IsClean lower (str s) = Unit
  IsClean lower (arr xs) = IsCleanItems lower xs
  IsClean lower (obj d) = IsCleanFields lower d

  pub IsCleanItems : (String → String) → Items → Type 0
  IsCleanItems lower nil = Unit
  IsCleanItems lower (cons v xs) = IsClean lower v × IsCleanItems lower xs

  pub IsCleanFields : (String → String) → Fields → Type 0
  IsCleanFields lower end = Unit
  IsCleanFields lower (field key v d) =
      (is_sensitive lower key ≡ true → v ≡ str "***") × IsClean lower v × IsCleanFields lower d

mutual
  unfolding redact redact_items redact_fields IsClean IsCleanItems IsCleanFields

  redact-IsClean : (lower : String → String) (v : Json) → IsClean lower (redact lower v)
  redact-IsClean lower null = tt
  redact-IsClean lower (bool b) = tt
  redact-IsClean lower (num n) = tt
  redact-IsClean lower (str s) = tt
  redact-IsClean lower (arr xs) = redact_items-IsCleanItems lower xs
  redact-IsClean lower (obj d) = redact_fields-IsCleanFields lower d

  redact_items-IsCleanItems :
      (lower : String → String) (xs : Items) → IsCleanItems lower (redact_items lower xs)
  redact_items-IsCleanItems lower nil = tt
  redact_items-IsCleanItems lower (cons v xs) =
      (redact-IsClean lower v, redact_items-IsCleanItems lower xs)

  redact_fields-IsCleanFields :
      (lower : String → String) (d : Fields) → IsCleanFields lower (redact_fields lower d)
  redact_fields-IsCleanFields lower end = tt
  redact_fields-IsCleanFields lower (field key v d) =
      let rest = redact_fields-IsCleanFields lower d in
      let inner = redact-IsClean lower v in
      elim (Bool-cases (is_sensitive lower key)) [
        | inl hidden ↦ rw hidden (λ _. refl, tt, rest)
        | inr shown ↦ rw shown (λ h. absurd (cc), inner, rest)
      ]

mutual
  unfolding redact redact_items redact_fields IsClean IsCleanItems IsCleanFields

  redact_fixed : (lower : String → String) (v : Json) → IsClean lower v → redact lower v ≡ v
  redact_fixed lower null c = refl
  redact_fixed lower (bool b) c = refl
  redact_fixed lower (num n) c = refl
  redact_fixed lower (str s) c = refl
  redact_fixed lower (arr xs) c = ap arr (redact_items_fixed lower xs c)
  redact_fixed lower (obj d) c = ap obj (redact_fields_fixed lower d c)

  redact_items_fixed :
      (lower : String → String) (xs : Items) → IsCleanItems lower xs → redact_items lower xs ≡ xs
  redact_items_fixed lower nil c = refl
  redact_items_fixed lower (cons v xs) (c, cs) =
      rw (redact_fixed lower v c, redact_items_fixed lower xs cs)

  redact_fields_fixed :
      (lower : String → String) (d : Fields) → IsCleanFields lower d → redact_fields lower d ≡ d
  redact_fields_fixed lower end c = refl
  redact_fields_fixed lower (field key v d) (h, c, cs) =
      let rest = redact_fields_fixed lower d cs in
      let inner = redact_fixed lower v c in
      elim (Bool-cases (is_sensitive lower key)) [
        | inl hidden ↦ rw (hidden, rest, h hidden)
        | inr shown ↦ rw (shown, inner, rest)
      ]

-- After redaction no key of a sensitive name holds anything but "***", at any depth; and a value of
-- which that is true already is left as it is, so nothing else is lost.
pub redact_lem :
    (lower : String → String) (v : Json)
    → IsClean lower (redact lower v) × (IsClean lower v → redact lower v ≡ v)
redact_lem lower v = (redact-IsClean lower v, redact_fixed lower v)
