-- ===== src/Config/Origins.antt =====
-- `NormalizeAllowedOrigin` of backend/internal/config/config.go, and the policy of
-- backend/internal/api/origin.go. `net/url` and `net` are arguments: `Urls`.
pub mod Policy
use Prim.Native.String.{◌++◌ as join}
use podman_manager.Prelude.{
  String, Bool, true, false, not, ◌&&◌, ◌||◌, Option, none, some, List, [], ◌∷◌, Result, ok, err,
  ◌==◌, if◌then◌else◌, trim_space, contains, ◌>>=◌,
}
use podman_manager.Config.Lower.{Runes, lower}

-- what `url.Parse` gives
pub record Url : Type 0 where
  pub scheme : String
  pub host : String
  pub path : String
  pub raw_query : String
  pub fragment : String
  pub has_user : Bool

pub record Urls : Type 0 where
  pub parse : String → Option Url
  pub split_host_port : String → Option (String × String)
  pub join_host_port : String → String → String

pub data OriginError : Type 0 where
  origin_required not_absolute bad_scheme has_path has_extras : OriginError

unfoldable pub normalize_origin_host : Runes → Urls → String → String → String
unfolding lower trim_space
normalize_origin_host runes urls scheme raw =
    let host = lower runes (trim_space raw) in
    elim (urls.split_host_port host) [
      | none ↦ host
      | some (name, port) ↦
          if (scheme == "http" && port == "80") || (scheme == "https" && port == "443")
          then lower runes name
          else lower runes (urls.join_host_port name port)
    ]

-- the checks on a parsed origin
unfoldable pub normalize_url : Runes → Urls → Url → Result OriginError String
unfolding normalize_origin_host
normalize_url runes urls u =
    if u.scheme == "" || u.host == ""
    then err not_absolute
    else (if not (u.scheme == "http") && not (u.scheme == "https")
        then err bad_scheme
        else (if not (u.path == "") && not (u.path == "/")
            then err has_path
            else (if not (u.raw_query == "") || not (u.fragment == "") || u.has_user
                then err has_extras
                else ok (
                    join u.scheme
                      (join "://" (normalize_origin_host runes urls u.scheme u.host))))))

unfoldable pub normalize_allowed_origin : Runes → Urls → String → Result OriginError String
unfolding normalize_url trim_space
normalize_allowed_origin runes urls raw =
    let origin = trim_space raw in
    if origin == ""
    then err origin_required
    else (if origin == "*" then ok "*" else elim (urls.parse origin) [
      | none ↦ err not_absolute
      | some u ↦ normalize_url runes urls u
    ])

-- the loop of `Validate` over the origins
unfoldable pub normalize_all : Runes → Urls → List String → Result OriginError (List String)
unfolding normalize_allowed_origin
normalize_all runes urls [] = ok []
normalize_all runes urls (o ∷ os) =
    let rest = normalize_all runes urls os in
    normalize_allowed_origin runes urls o >>= λ n. rest >>= λ ns. ok (n ∷ ns)

pub record OriginPolicy : Type 0 where
  pub allow_all : Bool
  pub allowed : List String

unfoldable pub new_origin_policy : List String → OriginPolicy
new_origin_policy [] = record { allow_all = false; allowed = [] }
new_origin_policy (o ∷ os) =
    let rest = new_origin_policy os in
    if o == "*"
    then record rest { allow_all = true }
    else record rest { allowed = o ∷ rest.allowed }

unfoldable pub normalize_host : Runes → Urls → String → String
unfolding lower trim_space
normalize_host runes urls raw =
    let host = lower runes (trim_space raw) in
    elim (urls.split_host_port host) [
      | none ↦ host
      | some (h, p) ↦ if p == "80" || p == "443" then lower runes h else host
    ]

unfoldable pub same_request_host : Runes → Urls → String → String → Bool
unfolding normalize_host
same_request_host runes urls request_host origin = elim (urls.parse origin) [
  | none ↦ false
  | some u ↦ normalize_host runes urls u.host == normalize_host runes urls request_host
]

-- the origin that is answered, and whether the request is let through, for the header `Origin` and the
-- host of a request
unfoldable pub allowed_origin : Runes → Urls → OriginPolicy → String → String → String × Bool
unfolding normalize_allowed_origin same_request_host trim_space
allowed_origin runes urls p header request_host =
    let origin = trim_space header in
    if origin == "" then ("", true) else elim (normalize_allowed_origin runes urls origin) [
      | err e ↦ ("", false)
      | ok normalized ↦
          if same_request_host runes urls request_host normalized
            || p.allow_all
            || contains normalized p.allowed
          then (origin, true)
          else ("", false)
    ]
