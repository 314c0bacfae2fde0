-- ===== src/Roles/Tests.antt =====
-- Roles: tests and instances.
use ops_inspection_system.Common.{
  String, true, false, ◌≡◌, ◌≢◌, refl, string_eq, ends_with, contains,
}
use ops_inspection_system.Roles.{
  normalize_role, is_read, asset_block, viewer_block, role_blocks, can_access, role_labels,
}
use ops_inspection_system.Roles.Matrix.{administration, administration_closed}

unfoldable pub policy : Unit {0}
unfolding can_access role_blocks asset_block viewer_block is_read normalize_role ends_with contains
    string_eq
policy = tt

can_access_tests :
    (can_access "admin" "/users" "POST" ≡ true)
    × (can_access "operator" "/services/7/edit" "POST" ≡ true)
    × (can_access "viewer" "/users" "GET" ≡ false)
    × (can_access "dashboard_viewer" "/dashboard" "POST" ≡ false)
    × (can_access "viewer" "/download/a.pdf" "GET" ≡ true)
unfolding policy
can_access_tests = (refl, refl, refl, refl, refl)

guest_unlisted : contains role_labels (normalize_role "guest") ≡ false
unfolding policy
guest_unlisted = refl

viewer_ne_admin : ◌≢◌ {A = String} "viewer" "admin"
viewer_ne_admin = cc

users_listed : contains administration "/api/users" ≡ true
unfolding policy
users_listed = refl

administration_closed_example : can_access "viewer" "/api/users" "POST" ≡ false
administration_closed_example =
    administration_closed "viewer" "/api/users" "POST" users_listed viewer_ne_admin
