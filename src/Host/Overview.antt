-- ===== src/Host/Overview.antt =====
-- What the overview of backend/internal/host/manager.go says.
use podman_manager.Prelude.{
  ℕ, suc, ◌+◌, String, Bool, true, false, Option, none, some, List, [], ◌∷◌, ◌==◌, nat_eq,
  if◌then◌else◌, ◌||◌, ◌≡◌, refl, sym, ap, ◌∙◌, arith, inl, inr, Bool-cases, Option-cases,
  Result-cases,
}
use podman_manager.Podman.Cache.{Container}
use podman_manager.Host.{
  Transport, ContainerCount, HostStatus, HostManager, Slots, write_slot, name_at, receive_results,
  overview, host_status, status_of, unknown_status, named_status, tally_containers, total_of,
  no_containers, get_transport,
}

unfoldable pub is_index : ℕ → List ℕ → Bool
is_index i [] = false
is_index i (j ∷ js) = nat_eq i j || is_index i js

abbrev Slot : Type 0
Slot = Option HostStatus

merged :
    (a b : Bool) (x y z : Slot)
    → (a ≡ true → y ≡ x)
    → (a ≡ false → y ≡ z)
    → (if b then x else y) ≡ (if a || b then x else z)
merged true true x y z f g = refl
merged true false x y z f g = f refl
merged false true x y z f g = refl
merged false false x y z f g = g refl

nat_eq_of : (i j : ℕ) → nat_eq i j ≡ true → i ≡ j
nat_eq_of i j h = ground (arith)

written :
    (i j : ℕ) (names : List String) (m : HostManager) (slots : Slots)
    → nat_eq i j ≡ true
    → write_slot j (host_status (name_at j names) m) slots i
      ≡ some (host_status (name_at i names) m)
unfolding write_slot
written i j names m slots e =
    rw e (ap (λ k. some (host_status (name_at k names) m)) (sym (nat_eq_of i j e)))

kept_slot :
    (i j : ℕ) (v : HostStatus) (slots : Slots)
    → nat_eq i j ≡ false
    → write_slot j v slots i ≡ slots i
unfolding write_slot
kept_slot i j v slots e = rw e refl

receive_results_at :
    (order : List ℕ) (names : List String) (m : HostManager) (slots : Slots) (i : ℕ)
    → receive_results order names m slots i
      ≡ (if is_index i order then some (host_status (name_at i names) m) else slots i)
unfolding receive_results is_index
receive_results_at [] names m slots i = refl
receive_results_at (j ∷ order) names m slots i =
    let v = host_status (name_at j names) m in
    receive_results_at order names m (write_slot j v slots) i
    ∙ merged (nat_eq i j) (is_index i order) (some (host_status (name_at i names) m))
        (write_slot j v slots i) (slots i) (written i j names m slots) (kept_slot i j v slots)

tally_containers_total :
    (cs : List Container) (n : ContainerCount)
    → ((tally_containers cs n).running + (tally_containers cs n).stopped
        ≡ total_of cs + (n.running + n.stopped))
      × ((tally_containers cs n).total ≡ n.total)
unfolding tally_containers total_of
tally_containers_total [] n = (omega arith, refl)
tally_containers_total (c ∷ cs) n = elim (Bool-cases (c.state == "running")) [
  | inl e ↦
      let (sum, total) = tally_containers_total cs (record n { running = suc n.running }) in
      rw e (omega arith, total)
  | inr e ↦
      let (sum, total) = tally_containers_total cs (record n { stopped = suc n.stopped }) in
      rw e (omega arith, total)
]

-- what a status says of its host
pub record IsConsistent (name : String) (m : HostManager) (hs : HostStatus) : Type 0 where
  pub named : hs.name ≡ name
  pub counted : hs.container_count.running + hs.container_count.stopped ≡ hs.container_count.total
  pub total : hs.container_count.total ≡ total_of hs.containers

status_of-IsConsistent :
    (name : String) (t : Transport) (m : HostManager) → IsConsistent name m (status_of name t)
unfolding status_of named_status total_of
status_of-IsConsistent name t m = elim (Result-cases t.ping) [
  | inr (_, e) ↦ rw (e, status_of) (record { named = refl; counted = omega arith; total = refl })
  | inl (_, e) ↦ elim (Result-cases t.list_containers) [
    | inr (_, f) ↦
        rw (e, f, status_of) (record { named = refl; counted = omega arith; total = refl })
    | inl (cs, f) ↦
        let start = record no_containers { total = total_of cs } in
        let (sum, total) = tally_containers_total cs start in
        rw (e, f, status_of) (record { named = refl; counted = omega arith; total = total })
  ]
]

host_status-IsConsistent :
    (name : String) (m : HostManager) → IsConsistent name m (host_status name m)
unfolding host_status unknown_status total_of
host_status-IsConsistent name m = elim (Option-cases (get_transport name m)) [
  | inl e ↦ rw (e, host_status) (record { named = refl; counted = omega arith; total = refl })
  | inr (t, e) ↦ rw (e, host_status) (status_of-IsConsistent name t m)
]

-- In whatever order the goroutines finish, once the one of an index has, the overview has there the
-- status of the host of that index, which bears its name and counts each of its containers once.
pub overview_any_order :
    (order : List ℕ) (names : List String) (m : HostManager) (i : ℕ)
    → is_index i order ≡ true
    → (overview order names m i ≡ some (host_status (name_at i names) m))
      × IsConsistent (name_at i names) m (host_status (name_at i names) m)
unfolding overview
overview_any_order order names m i h = (
  receive_results_at order names m (λ i. none) i ∙ rw h refl,
  host_status-IsConsistent (name_at i names) m,
)
