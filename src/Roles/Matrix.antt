-- ===== src/Roles/Matrix.antt =====
-- The permission matrix of docs/role-permissions.md, as facts about `can_access`.
use ops_inspection_system.Common.{
  String, Bool, true, false, List, [], ◌∷◌, ap, ◌≡◌, ◌≢◌, inl, inr, arith, refl, subst, All, ◌&&◌,
  not, ◌==◌, contains, string_eq, ends_with, Bool-cases,
}
use ops_inspection_system.Roles.{
  role_labels, normalize_role, shared_paths, dashboard_paths, is_read, asset_block, viewer_block,
  role_blocks, can_access,
}

asset_manager_ne_viewer : ◌≢◌ {A = String} "asset_manager" "viewer"
asset_manager_ne_viewer = cc

asset_manager_ne_admin : ◌≢◌ {A = String} "asset_manager" "admin"
asset_manager_ne_admin = cc

admin_listed : contains role_labels "admin" ≡ true
unfolding contains string_eq
admin_listed = refl

normalize_role_viewer : (role : String) → normalize_role role ≡ "viewer" → role ≡ "viewer"
unfolding normalize_role
normalize_role_viewer role h = ground (arith, asset_manager_ne_viewer)

normalize_role_admin : (role : String) → normalize_role role ≡ "admin" → role ≡ "admin"
unfolding normalize_role
normalize_role_admin role h = ground (arith, asset_manager_ne_admin)

-- A role that has no label, even after `operator` is read as `asset_manager`, reaches no path by
-- any method.
pub can_access_unlisted :
    (role path method : String)
    → contains role_labels (normalize_role role) ≡ false
    → can_access role path method ≡ false
unfolding can_access
can_access_unlisted role path method h =
    ground (arith, ap (contains role_labels) {x = normalize_role role} {y = "admin"}, admin_listed)

is_read_get : is_read "GET" ≡ true
unfolding is_read string_eq
is_read_get = refl

-- Pages and calls of the administrator: accounts, the audit, the confirmed configurations, the schedule
-- and the AI chat with its skills, conversations and actions.
abbrev pub administration : List String
administration =
    "/users" ∷ "/api/users" ∷ "/audit-logs" ∷ "/api/audit_logs" ∷ "/resource-changes"
    ∷ "/api/resource-config" ∷ "/api/resource-config/plans" ∷ "/api/toggle_schedule" ∷ "/ai/chat"
    ∷ "/ai/operation-audit" ∷ "/ai/conversation-audit" ∷ "/api/ai/operation-audits"
    ∷ "/api/ai/conversation-audits" ∷ "/api/ai/skills" ∷ "/api/ai/conversations" ∷ "/api/ai/actions"
    ∷ []

-- No entry of the policy names the path.
abbrev is_unnamed : String → Bool
is_unnamed path =
    not (contains shared_paths path)
    && not (contains dashboard_paths path)
    && not (asset_block path)
    && not (viewer_block path "GET")

viewer_block-get :
    (path method : String) → viewer_block path "GET" ≡ false → viewer_block path method ≡ false
unfolding viewer_block
viewer_block-get path method h = ground (arith, is_read_get)

unnamed_denied :
    (role path method : String)
    → is_unnamed path ≡ true
    → role ≢ "admin"
    → can_access role path method ≡ false
unfolding can_access role_blocks
unnamed_denied role path method h other =
    ground (arith, viewer_block-get path method, normalize_role_admin role)

administration_unnamed : All (λ (path : String). is_unnamed path ≡ true) administration
unfolding contains string_eq asset_block viewer_block is_read ends_with
administration_unnamed = (
  refl,
  (
    refl,
    (
      refl,
      (
        refl,
        (
          refl,
          (
            refl,
            (refl, (refl, (refl, (refl, (refl, (refl, (refl, (refl, (refl, (refl, tt)))))))))),
          ),
        ),
      ),
    ),
  ),
)

member {κ} :
    (P : String → Type κ) (xs : List String) (x : String) → All P xs → contains xs x ≡ true → P x
unfolding contains
member P [] x h there = absurd (cc)
member P (y ∷ xs) x (h, hs) there = elim (Bool-cases (x == y)) [
  | inl same ↦ let found : y ≡ x = ground arith in subst P found h
  | inr other ↦ member P xs x hs (ground arith)
]

pub administration_closed :
    (role path method : String)
    → contains administration path ≡ true
    → role ≢ "admin"
    → can_access role path method ≡ false
administration_closed role path method h other =
    unnamed_denied role path method
      (member (λ p. is_unnamed p ≡ true) administration path administration_unnamed h) other

is_read_head : is_read "HEAD" ≡ true
unfolding is_read string_eq
is_read_head = refl

-- Whatever a role may do to a path by some method, it may read the path: GET and HEAD are granted.
pub can_access_read :
    (role path method : String)
    → can_access role path method ≡ true
    → (can_access role path "GET" ≡ true) × (can_access role path "HEAD" ≡ true)
unfolding can_access role_blocks viewer_block
can_access_read role path method h = ground (arith, is_read_get, is_read_head)

-- The old `operator` role has exactly the rights of the asset manager.
pub can_access-operator :
    (path method : String)
    → can_access "operator" path method ≡ can_access "asset_manager" path method
unfolding can_access normalize_role string_eq
can_access-operator path method = refl
