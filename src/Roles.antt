-- ===== src/Roles.antt =====
-- role_policy.py: which role may reach which path by which method. Roles, paths and methods are
-- the strings that the session and the request hold; `None` stands for a session without a role.
pub mod Matrix
pub mod Tests
use ops_inspection_system.Common.{
  String, Bool, true, false, List, [], ◌∷◌, ◌&&◌, ◌||◌, not, ◌==◌, contains, string_eq,
  if◌then◌else◌, starts_with, ends_with,
}

-- The keys of ROLE_LABELS.
abbrev pub role_labels : List String
role_labels = "admin" ∷ "dashboard_viewer" ∷ "asset_manager" ∷ "viewer" ∷ []

pub normalize_role : String → String
normalize_role role = if role == "operator" then "asset_manager" else role

abbrev pub shared_paths : List String
shared_paths =
    "/" ∷ "/profile" ∷ "/api/update_password" ∷ "/api/logout" ∷ "/login" ∷ "/api/login"
    ∷ "/api/captcha" ∷ []

abbrev pub dashboard_paths : List String
dashboard_paths =
    "/dashboard" ∷ "/dashboard/server-status" ∷ "/dashboard/data-center" ∷ "/api/dashboard/status"
    ∷ []

abbrev pub asset_paths : List String
asset_paths =
    "/servers" ∷ "/servers-new" ∷ "/server-environments" ∷ "/service-systems" ∷ "/services"
    ∷ "/services-new" ∷ "/api/groups" ∷ "/api/service_systems" ∷ "/api/service_environments" ∷ []

abbrev pub insight_paths : List String
insight_paths =
    "/ai/insights" ∷ "/api/ai/insights" ∷ "/api/ai/stream" ∷ "/api/ai/stream/cancel" ∷ []

abbrev pub report_paths : List String
report_paths = "/reports" ∷ "/api/reports" ∷ "/api/inspection_runs" ∷ "/api/download_report" ∷ []

-- `method in {'GET', 'HEAD'}`
pub is_read : String → Bool
is_read method = method == "GET" || method == "HEAD"

-- The block `if role == 'asset_manager'`; what does not return falls through.
pub asset_block : String → Bool
asset_block path =
    contains asset_paths path
    || starts_with path "/api/servers"
    || starts_with path "/api/services"
    || starts_with path "/services/" && ends_with path "/edit"

-- The block `if role == 'viewer'`.
pub viewer_block : String → String → Bool
viewer_block path method =
    path == "/api/ai/providers" && is_read method
    || contains insight_paths path
    || is_read method
      && (contains report_paths path
          || starts_with path "/download/"
          || starts_with path "/api/preview_report/")

-- What follows the dashboard block.
pub role_blocks : String → String → String → Bool
role_blocks role path method =
    if role == "asset_manager" && asset_block path
    then true
    else role == "viewer" && viewer_block path method

unfoldable pub can_access : String → String → String → Bool
can_access given path method =
    let role = normalize_role given in
    if role == "admin"
    then true
    else if not (contains role_labels role)
    then false
    else if contains shared_paths path
    then true
    else if (role == "dashboard_viewer" || role == "asset_manager") && contains dashboard_paths path
    then is_read method
    else role_blocks role path method
