-- ===== src/Control/Mutation.antt =====
-- `normalizeLinkMutation`, `validateHTTPURL` and `iconKind` of backend/internal/control/store.go.
pub mod Normal
use podman_manager.Prelude.{
  ℕ, String, Bool, not, ◌&&◌, ◌||◌, none, some, Result, ok, err, map_err, ◌>>=◌, ◌>>◌, ◌==◌,
  if◌then◌else◌, trim_space, trim_left, trim_right, codes, lower_codes, begins,
}
use podman_manager.Control.{
  LinkMutation, Environment, Error, url_unparsed, bad_scheme, host_required, title_required,
  url_invalid, health_url_invalid, bad_target, bad_role,
}

unfoldable pub validate_http_url : Environment → String → Result Error (Unit {0})
validate_http_url env raw = elim (env.parse_url raw) [
  | none ↦ err url_unparsed
  | some (scheme, host) ↦
      if not (scheme == "http") && not (scheme == "https")
      then err bad_scheme
      else (if host == "" then err host_required else ok tt)
]

unfoldable pub trim_fields : LinkMutation → LinkMutation
unfolding trim_space
trim_fields req = record req {
  title = trim_space req.title;
  url = trim_space req.url;
  description = trim_space req.description;
  icon = trim_space req.icon;
  category_id = trim_space req.category_id;
  category_name = trim_space req.category_name;
  health_url = trim_space req.health_url;
  source = trim_space req.source;
}

unfoldable pub check_health_url : Environment → LinkMutation → Result Error (Unit {0})
unfolding validate_http_url
check_health_url env req =
    if req.health_url == ""
    then ok tt
    else map_err health_url_invalid (validate_http_url env req.health_url)

unfoldable pub check_texts : Environment → LinkMutation → Result Error LinkMutation
unfolding check_health_url
check_texts env req =
    if req.title == ""
    then err title_required
    else (map_err url_invalid (validate_http_url env req.url) >> check_health_url env req >> ok req)

abbrev pub or_else : String → String → String
or_else s d = if s == "" then d else s

abbrev pub is_target : String → Bool
is_target t = t == "_blank" || t == "_self"

abbrev pub is_role : String → Bool
is_role r = r == "viewer" || r == "operator" || r == "admin"

unfoldable pub normalize_target : LinkMutation → Result Error LinkMutation
normalize_target req =
    let target = or_else req.target "_blank" in
    if is_target target then ok (record req { target = target }) else err bad_target

unfoldable pub normalize_role : LinkMutation → Result Error LinkMutation
normalize_role req =
    let role = or_else req.visibility_role "viewer" in
    if is_role role then ok (record req { visibility_role = role }) else err bad_role

unfoldable pub fill_rest : LinkMutation → LinkMutation
fill_rest req = record req {
  status = or_else req.status "unknown";
  source = or_else req.source "manual";
  category_name =
      if req.category_name == "" && req.category_id == "" then "General" else req.category_name;
}

unfoldable pub normalize_link_mutation : Environment → LinkMutation → Result Error LinkMutation
unfolding trim_fields check_texts normalize_target normalize_role fill_rest
normalize_link_mutation env req =
    check_texts env (trim_fields req) >>= normalize_target >>= normalize_role >>= λ r.
    ok (fill_rest r)

unfoldable pub icon_kind : (ℕ → ℕ) → String → String
unfolding trim_space begins lower_codes codes
icon_kind table input =
    let icon = trim_space input in
    let lower = lower_codes table (codes icon) in
    if icon == ""
    then "favicon"
    else (if begins (codes "http://") lower || begins (codes "https://") lower
        then "url"
        else (if begins (codes "/") (codes icon) then "upload" else "slug"))
