-- ===== src/Control/Mutation/Normal.antt =====
-- What `normalizeLinkMutation` of backend/internal/control/store.go lets through.
use podman_manager.Prelude.{
  String, Bool, true, false, not, ◌&&◌, ◌||◌, ◌≡◌, refl, ap, ◌∙◌, sym, subst⁻¹, inl, inr, Result,
  ok, err, ◌>>=◌, ◌==◌, if◌then◌else◌, trim_space, trim_space_twice, arith, eq_iff, Bool-cases,
  eq_cases, Result-cases, trim_left, trim_right, trim_before, is_space, bind_inv,
}
use podman_manager.Control.{LinkMutation, Environment, Error}
use podman_manager.Control.Mutation.{
  validate_http_url, trim_fields, check_health_url, check_texts, or_else, is_target, is_role,
  normalize_target, normalize_role, fill_rest, normalize_link_mutation,
}

abbrev pub is_ok {ℓ} : {A : Type ℓ} → Result Error A → Bool
is_ok (ok a) = true
is_ok (err e) = false

unfoldable pub has_texts : Environment → LinkMutation → Bool
unfolding validate_http_url
has_texts env n =
    not (n.title == "")
    && is_ok (validate_http_url env n.url)
    && (n.health_url == "" || is_ok (validate_http_url env n.health_url))

-- what a mutation is after it was normalized; `trimmed` is on all texts but the target, the role and
-- the status
pub record IsNormal (env : Environment) (n : LinkMutation) : Type 0 where
  pub trimmed : trim_fields n ≡ n
  pub texts : has_texts env n ≡ true
  pub target : is_target n.target ≡ true
  pub role : is_role n.visibility_role ≡ true
  pub status : (n.status == "") ≡ false
  pub source : (n.source == "") ≡ false
  pub category : (n.category_name == "" && n.category_id == "") ≡ false

check_texts_inv :
    (env : Environment) (r n : LinkMutation)
    → check_texts env r ≡ ok n
    → (n ≡ r) × (has_texts env r ≡ true)
unfolding check_texts check_health_url has_texts
check_texts_inv env r n h = elim (Result-cases (validate_http_url env r.url)) [
  | inl (_, e) ↦ elim (Result-cases (validate_http_url env r.health_url)) [
    | inl (_, f) ↦ (ground arith, rw (e, f) (ground arith))
    | inr (_, f) ↦ (ground arith, rw (e, f) (ground arith))
  ]
  | inr (_, e) ↦ (ground arith, rw e (ground arith))
]

check_texts_of :
    (env : Environment) (r : LinkMutation) → has_texts env r ≡ true → check_texts env r ≡ ok r
unfolding check_texts check_health_url has_texts
check_texts_of env r h = elim (Result-cases (validate_http_url env r.url)) [
  | inl (_, e) ↦ elim (Result-cases (validate_http_url env r.health_url)) [
    | inl (_, f) ↦ rw (e, f) (ground arith)
    | inr (_, f) ↦ rw (e, f) (ground arith)
  ]
  | inr (_, e) ↦ rw e (ground arith)
]

abbrev set_target : LinkMutation → LinkMutation
set_target r = record r { target = or_else r.target "_blank" }

abbrev set_role : LinkMutation → LinkMutation
set_role r = record r { visibility_role = or_else r.visibility_role "viewer" }

-- the mutation that comes out, if one does
abbrev normalized : LinkMutation → LinkMutation
normalized req = fill_rest (set_role (set_target (trim_fields req)))

normalize_target_inv :
    (r n : LinkMutation)
    → normalize_target r ≡ ok n
    → (n ≡ set_target r) × (is_target (or_else r.target "_blank") ≡ true)
unfolding normalize_target
normalize_target_inv r n h = (ground arith, ground arith)

normalize_role_inv :
    (r n : LinkMutation)
    → normalize_role r ≡ ok n
    → (n ≡ set_role r) × (is_role (or_else r.visibility_role "viewer") ≡ true)
unfolding normalize_role
normalize_role_inv r n h = (ground arith, ground arith)

or_else_filled : (s d : String) → (d == "") ≡ false → (or_else s d == "") ≡ false
or_else_filled s d h = ground (arith, eq_iff s "")

abbrev pub succeeds {ℓ} : {A : Type ℓ} → A → Result Error A
succeeds a = ok a

pub ok_injective {ℓ} : {A : Type ℓ} {a b : A} → succeeds a ≡ ok b → a ≡ b
ok_injective h = cc

normalize_inv :
    (env : Environment) (req n : LinkMutation)
    → normalize_link_mutation env req ≡ ok n
    → (n ≡ normalized req)
      × (has_texts env (trim_fields req) ≡ true)
      × (is_target (or_else req.target "_blank") ≡ true)
      × (is_role (or_else req.visibility_role "viewer") ≡ true)
unfolding normalize_link_mutation trim_fields
normalize_inv env req n h =
    let r = trim_fields req in
    let c = check_texts env r in
    let (n3, e3, h3) =
      bind_inv (c >>= normalize_target >>= normalize_role) (λ r. ok (fill_rest r)) n h in
    let (n2, e2, h2) = bind_inv (c >>= normalize_target) normalize_role n3 e3 in
    let (n1, e1, h1) = bind_inv c normalize_target n2 e2 in
    let (p1, t1) = check_texts_inv env r n1 e1 in
    let (p2, t2) = normalize_target_inv n1 n2 h1 in
    let (p3, t3) = normalize_role_inv n2 n3 h2 in
    let q2 = p2 ∙ ap set_target p1 in
    (
      sym (ok_injective h3) ∙ ap fill_rest (p3 ∙ ap set_role q2),
      t1,
      ap (λ r. is_target (or_else r.target "_blank")) (sym p1) ∙ t2,
      ap (λ r. is_role (or_else r.visibility_role "viewer")) (sym q2) ∙ t3,
    )

trim_filled :
    (s d : String)
    → trim_space d ≡ d
    → trim_space (or_else (trim_space s) d) ≡ or_else (trim_space s) d
trim_filled s d h = elim (Bool-cases (trim_space s == "")) [
  | inl e ↦ rw e h
  | inr e ↦ rw e (trim_space_twice s)
]

trims_filled :
    (s t : String)
    → let name = trim_space s in
      let id = trim_space t in
      let filled = if name == "" && id == "" then "General" else name in
      (trim_space filled ≡ filled) × ((filled == "" && id == "") ≡ false)
unfolding trim_space trim_left trim_right trim_before is_space
trims_filled s t = elim (Bool-cases (trim_space s == "" && trim_space t == "")) [
  | inl e ↦ rw e (refl, refl)
  | inr e ↦ rw e (trim_space_twice s, e)
]

trim_fields-normalized : (req : LinkMutation) → trim_fields (normalized req) ≡ normalized req
unfolding trim_fields fill_rest trim_space trim_left trim_right trim_before is_space
trim_fields-normalized req = λ i. record (normalized req) {
  title = trim_space_twice req.title i;
  url = trim_space_twice req.url i;
  description = trim_space_twice req.description i;
  icon = trim_space_twice req.icon i;
  category_id = trim_space_twice req.category_id i;
  category_name = (trims_filled req.category_name req.category_id).0 i;
  health_url = trim_space_twice req.health_url i;
  source = trim_filled req.source "manual" refl i;
}

normalized-IsNormal :
    (env : Environment) (req : LinkMutation)
    → has_texts env (trim_fields req) ≡ true
    → is_target (or_else req.target "_blank") ≡ true
    → is_role (or_else req.visibility_role "viewer") ≡ true
    → IsNormal env (normalized req)
unfolding fill_rest trim_fields has_texts
normalized-IsNormal env req t g r = record {
  trimmed = trim_fields-normalized req;
  texts = t;
  target = g;
  role = r;
  status = or_else_filled req.status "unknown" refl;
  source = or_else_filled (trim_space req.source) "manual" refl;
  category = (trims_filled req.category_name req.category_id).1;
}

not_empty : (p : String → Bool) (t : String) → p "" ≡ false → p t ≡ true → (t == "") ≡ false
not_empty p t z h = elim (eq_cases t "") [ inl (e, _) ↦ let q = ap p e in cc | inr e ↦ e ]

normalize_target_of : (n : LinkMutation) → is_target n.target ≡ true → normalize_target n ≡ ok n
unfolding normalize_target
normalize_target_of n h = rw (not_empty is_target n.target refl h, h) refl

normalize_role_of : (n : LinkMutation) → is_role n.visibility_role ≡ true → normalize_role n ≡ ok n
unfolding normalize_role
normalize_role_of n h = rw (not_empty is_role n.visibility_role refl h, h) refl

fill_rest_of : (env : Environment) (n : LinkMutation) → IsNormal env n → fill_rest n ≡ n
unfolding fill_rest
fill_rest_of env n h = rw (h.status, h.source, h.category) refl

-- A mutation that is normal already is left as it is.
pub normalize_of_normal :
    (env : Environment) (n : LinkMutation) → IsNormal env n → normalize_link_mutation env n ≡ ok n
unfolding normalize_link_mutation
normalize_of_normal env n h =
    ap (λ r. check_texts env r >>= normalize_target >>= normalize_role >>= λ r. ok (fill_rest r))
      h.trimmed
    ∙ ap (λ c. c >>= normalize_target >>= normalize_role >>= λ r. ok (fill_rest r))
        (check_texts_of env n h.texts)
    ∙ ap (λ c. c >>= normalize_role >>= λ r. ok (fill_rest r)) (normalize_target_of n h.target)
    ∙ ap (λ c. c >>= λ r. ok (fill_rest r)) (normalize_role_of n h.role)
    ∙ ap ok (fill_rest_of env n h)

-- What `normalizeLinkMutation` gives back has no space around its title, URL, description, icon,
-- category ID, category name, health URL and source; it has a title, an http or https URL with a host,
-- a health URL of that kind or none, one of the targets and one of the roles, a status and a source that
-- are not empty, and a category's name or ID. Normalizing it once more gives it back.
pub normalize_link_mutation-IsNormal :
    (env : Environment) (req n : LinkMutation)
    → normalize_link_mutation env req ≡ ok n
    → IsNormal env n × (normalize_link_mutation env n ≡ ok n)
normalize_link_mutation-IsNormal env req n h =
    let (e, t, g, r) = normalize_inv env req n h in
    let normal = subst⁻¹ (IsNormal env) e (normalized-IsNormal env req t g r) in
    (normal, normalize_of_normal env n normal)
