-- ===== src/Config/Origins/Policy.antt =====
-- The policy of backend/internal/api/origin.go by the origins of the configuration.
use podman_manager.Prelude.{
  String, Bool, true, false, ◌||◌, List, [], ◌∷◌, ok, err, ◌==◌, ◌≡◌, refl, if◌then◌else◌,
  trim_space, contains, arith, eq_iff, inl, inr, Bool-cases, Result-cases,
}
use podman_manager.Config.Lower.{Runes}
use podman_manager.Config.Origins.{
  Urls, new_origin_policy, normalize_allowed_origin, same_request_host, allowed_origin,
}

-- The origins that a configuration lets in, for the host of a request.
unfoldable pub lets_in : Runes → Urls → List String → String → String → Bool
unfolding normalize_allowed_origin same_request_host trim_space
lets_in runes urls configured header request_host =
    if trim_space header == ""
    then true
    else elim (normalize_allowed_origin runes urls (trim_space header)) [
      | err e ↦ false
      | ok n ↦
          same_request_host runes urls request_host n
          || contains "*" configured
          || contains n configured
    ]

allow_all_configured :
    (configured : List String) → (new_origin_policy configured).allow_all ≡ contains "*" configured
unfolding new_origin_policy
allow_all_configured [] = refl
allow_all_configured (o ∷ os) = ground (arith, allow_all_configured os)

allowed_configured :
    (n : String) (configured : List String)
    → ((new_origin_policy configured).allow_all
        || contains n (new_origin_policy configured).allowed)
      ≡ (contains "*" configured || contains n configured)
unfolding new_origin_policy
allowed_configured n [] = refl
allowed_configured n (o ∷ os) = ground (
  arith,
  allowed_configured n os,
  allow_all_configured os,
  eq_iff o "*",
  eq_iff o n,
  eq_iff n "*",
)

abbrev answered : String → Bool → String × Bool
answered origin b = if b then (origin, true) else ("", false)

decided :
    (origin : String) (same : Bool) (n : String) (configured : List String)
    → let p = new_origin_policy configured in
      (answered origin (same || p.allow_all || contains n p.allowed)).1
      ≡ (same || contains "*" configured || contains n configured)
decided origin true n configured = refl
decided origin false n configured = let h = allowed_configured n configured in ground (arith)

-- A request is let in just when it has no origin, or when its origin is one that can be normalized and
-- is the request's own host, or is configured, or when every origin is.
pub allowed_origin_configured :
    (runes : Runes) (urls : Urls) (configured : List String) (header request_host : String)
    → (allowed_origin runes urls (new_origin_policy configured) header request_host).1
      ≡ lets_in runes urls configured header request_host
unfolding allowed_origin lets_in
allowed_origin_configured runes urls configured header request_host =
    elim (Bool-cases (trim_space header == "")) [
      | inl e ↦ rw (e, allowed_origin, lets_in) refl
      | inr e ↦ elim (Result-cases (normalize_allowed_origin runes urls (trim_space header))) [
        | inr (_, f) ↦ rw (e, f, allowed_origin, lets_in) refl
        | inl (n, f) ↦
            rw (e, f, allowed_origin, lets_in)
              (decided (trim_space header) (same_request_host runes urls request_host n) n
                configured)
      ]
    ]
