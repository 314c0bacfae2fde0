-- ===== src/Json/Tests.antt =====
-- Json: tests and instances.
use ops_inspection_system.Common.{String, ◌≡◌, refl, occurs_in, string_eq}
use ops_inspection_system.Json.{Json, str, obj, arr, cons, nil, field, end}
use ops_inspection_system.Json.Redact.{
  redact, redact_items, redact_fields, is_sensitive, IsClean, redact_lem,
}

abbrev same_text : String → String
same_text s = s

abbrev payload : Json
payload = obj (
    field "ip" (str "10.0.0.1")
      (field "hosts" (arr (cons (obj (field "ssh_password" (str "x") end)) nil)) end))

redact_test :
    redact same_text payload
    ≡ obj (
        field "ip"
          (str "10.0.0.1")
          (field "hosts" (arr (cons (obj (field "ssh_password" (str "***") end)) nil)) end))
unfolding redact redact_items redact_fields is_sensitive occurs_in string_eq
redact_test = refl

redact_lem_example :
    IsClean same_text (redact same_text payload)
    × (IsClean same_text payload → redact same_text payload ≡ payload)
redact_lem_example = redact_lem same_text payload
