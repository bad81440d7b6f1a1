-- ===== src/Podman/Cache/Freshness.antt =====
-- What a getter answers, and how old the answer may be.
use podman_manager.Prelude.{
  ℕ, ◌-◌, ◌≡◌, refl, ap, String, true, false, Option, none, some, ◌==◌, lookup, delete, lookup-put,
  lookup-delete, eq_iff, eq_refl, Result, ok, ltb, nat_eq, if◌then◌else◌, Option-cases, Bool-cases,
  arith, inl, inr, ◌⊎◌,
}
use podman_manager.Podman.Cache.{
  Slice, Container, Stats, HostSystemInfo, HostData, Cache, new_host_data, is_fresh,
  get_or_create_host, update_host, clone_containers, cached_containers, store_containers,
  cached_stats, cached_system_info, get_containers, get_stats, get_system_info, invalidate,
}
use podman_manager.Podman.Cache.Clones.{clone_containers_twice}

-- the entry that a write starts from
abbrev entry_of : Option HostData → HostData
entry_of none = new_host_data
entry_of (some entry) = entry

pub lookup-update_host :
    (host other : String) (f : HostData → HostData) (c : Cache)
    → (lookup other (update_host host f c).hosts ≡ (
        if host == other then some (f (entry_of (lookup host c.hosts))) else lookup other c.hosts))
      × ((update_host host f c).ttl ≡ c.ttl)
unfolding update_host get_or_create_host
lookup-update_host host other f c = elim (Option-cases (lookup host c.hosts)) [
  | inl e ↦
      rw (e, update_host, get_or_create_host) (rw (lookup-put, lookup-put) (ground arith, refl))
  | inr (x, e) ↦ rw (e, update_host, get_or_create_host) (rw lookup-put (refl, refl))
]

abbrev filled : Slice Container → ℕ → HostData → HostData
filled xs at entry = record entry { containers = clone_containers xs; containers_at = at }

cached_containers-store_containers :
    (host other : String) (xs : Slice Container) (at now : ℕ) (c : Cache)
    → cached_containers other now (store_containers host xs at c) ≡ (
        if host == other
        then (if is_fresh c.ttl at now then some (clone_containers xs) else none)
        else cached_containers other now c)
unfolding cached_containers store_containers
cached_containers-store_containers host other xs at now c =
    let (found, ttl) = lookup-update_host host other (filled xs at) c in
    elim (Bool-cases (host == other)) [
      | inl e ↦
          rw (found, cached_containers, e)
            (rw (ttl, cached_containers, clone_containers_twice xs) refl)
      | inr e ↦ rw (found, cached_containers, e) (ground (arith, ttl))
    ]

-- What is stored of the containers of a host changes no other answer: not those on its statistics and
-- its system, and no answer on another host.
pub store_containers_apart :
    (host other : String) (xs : Slice Container) (at now : ℕ) (c : Cache)
    → (cached_stats other now (store_containers host xs at c) ≡ cached_stats other now c)
      × (cached_system_info other now (store_containers host xs at c)
          ≡ cached_system_info other now c)
      × ((host == other) ≡ true
          ⊎ (cached_containers other now (store_containers host xs at c)
              ≡ cached_containers other now c))
unfolding store_containers cached_stats cached_system_info cached_containers is_fresh
store_containers_apart host other xs at now c =
    let (found, ttl) = lookup-update_host host other (filled xs at) c in
    elim (Bool-cases (host == other)) [
      | inr e ↦
          rw (found, e, cached_stats, cached_system_info, cached_containers)
            (ground (arith, ttl), ground (arith, ttl), inr (ground (arith, ttl)))
      | inl e ↦
          let same = (eq_iff host other).0 e in
          elim (Option-cases (lookup host c.hosts)) [
            | inl n ↦ (
              rw (found, e, n, cached_stats) (ground (arith, n, ap (λ k. lookup k c.hosts) same)),
              rw (found, e, n, cached_system_info)
                  (ground (arith, n, ap (λ k. lookup k c.hosts) same)),
              inl e,
            )
            | inr (x, n) ↦ (
              rw (found, e, n, cached_stats)
                  (ground (arith, ttl, n, ap (λ k. lookup k c.hosts) same)),
              rw (found, e, n, cached_system_info)
                  (ground (arith, ttl, n, ap (λ k. lookup k c.hosts) same)),
              inl e,
            )
          ]
    ]

-- When a getter has fetched, the next one answers with a copy of the same for as long as `ttl` has not
-- passed since, whatever a fetch would give by then, and with what a fetch gives from then on.
pub get_containers_again :
    {E : Type 0} (host : String) (now later next end : ℕ)
    (fetch again : String → Result E (Slice Container)) (xs : Slice Container) (c : Cache)
    → cached_containers host now c ≡ none
    → fetch host ≡ ok xs
    → nat_eq later 0 ≡ false
    → let c' = (get_containers host now later fetch c).0 in
      (get_containers host next end again c').1
      ≡ (if ltb (next - later) c.ttl then ok (clone_containers xs) else again host)
unfolding get_containers is_fresh
get_containers_again host now later next end fetch again xs c missed fetched ticks =
    let seen = cached_containers-store_containers host host xs later next c in
    ground (arith, seen, eq_refl host)

-- After an invalidation each getter answers with what its fetch gives, error or not, and the answers
-- on other hosts are what they were.
pub invalidate_forces_fetch :
    {E : Type 0} (host other : String) (now later : ℕ) (c : Cache)
    (containers : String → Result E (Slice Container)) (stats : String → Result E Stats)
    (info : String → Result E (Option HostSystemInfo))
    → let c' = invalidate host c in
      ((get_containers host now later containers c').1 ≡ containers host)
      × ((get_stats host now later stats c').1 ≡ stats host)
      × ((get_system_info host now later info c').1 ≡ info host)
      × ((host == other) ≡ true ⊎ (cached_containers other now c' ≡ cached_containers other now c))
unfolding get_containers get_stats get_system_info invalidate cached_containers cached_stats
    cached_system_info
invalidate_forces_fetch host other now later c containers stats info =
    let gone : lookup host (delete host c.hosts) ≡ none = rw (lookup-delete, eq_refl) refl in
    (
      ground (arith, gone),
      ground (arith, gone),
      ground (arith, gone),
      ground (arith, lookup-delete host other c.hosts),
    )
