-- ===== src/Enroll/Credentials.antt =====
-- The credentials of a store, and the file that keeps them across restarts.
use podman_manager.Prelude.{
  String, ◌≡◌, ◌≢◌, refl, true, false, Option, none, some, List, [], ◌∷◌, map, ◌==◌, Result, ok,
  err, eq_iff, eq_refl, inl, inr, Option-cases, eq_cases, Bool-cases, arith, ℤ, Map, contains,
  lookup, put, lookup-put, if◌then◌else◌, not_positive, pos, hour,
}
use podman_manager.Enroll.{
  Store, AgentCredential, SaveOutcome, File, json, saved, Error, collect, load_all,
  new_persistent_store, save_credentials, register_credential, revoke_credential, find_credential,
  get_credential, credential_not_found,
}

-- Each credential stands under its own agent, which has a name.
pub record IsKeyed (m : Map AgentCredential) : Type 0 where
  pub own : (k : String) (c : AgentCredential) → lookup k m ≡ some c → c.agent_id ≡ k
  pub named : (k : String) (c : AgentCredential) → lookup k m ≡ some c → (k == "") ≡ false

-- The keys in `order` include every key of the map, as those that `range` visits do.
abbrev pub Visits {ℓ} : {V : Type ℓ} → List String → Map V → Type ℓ
Visits {V = V} order m = (k : String) (v : V) → lookup k m ≡ some v → contains k order ≡ true

pub put-IsKeyed :
    (j : String) (cred : AgentCredential) (m : Map AgentCredential)
    → cred.agent_id ≡ j
    → (j == "") ≡ false
    → IsKeyed m
    → IsKeyed (put j cred m)
put-IsKeyed j cred m e h v = record {
  own = λ k c. rw lookup-put (ground (arith, eq_iff j k, v.own k c));
  named = λ k c. rw lookup-put (ground (arith, eq_iff j k, v.named k c));
}

-- the entry of `k` in `m`, or else the one in `m'`
abbrev over : Option AgentCredential → Option AgentCredential → Option AgentCredential
over none o = o
over (some c) o = some c

load_all-collect :
    (ks : List String) (m m' : Map AgentCredential) (k : String)
    → IsKeyed m
    → lookup k (load_all (map some (collect ks m)) m')
      ≡ (if contains k ks then over (lookup k m) (lookup k m') else lookup k m')
unfolding load_all collect
load_all-collect [] m m' k v = refl
load_all-collect (j ∷ ks) m m' k v = elim (Option-cases (lookup j m)) [
  | inl e ↦ ground (arith, load_all-collect ks m m' k v, eq_iff j k)
  | inr (c, e) ↦ ground (
    arith,
    v.own j c e,
    v.named j c e,
    load_all-collect ks m (put c.agent_id c m') k v,
    lookup-put c.agent_id k c m',
    eq_iff j k,
  )
]

load_all-IsKeyed :
    (creds : List (Option AgentCredential)) (m : Map AgentCredential)
    → IsKeyed m
    → IsKeyed (load_all creds m)
unfolding load_all
load_all-IsKeyed [] m v = v
load_all-IsKeyed (none ∷ creds) m v = load_all-IsKeyed creds m v
load_all-IsKeyed (some c ∷ creds) m v = elim (Bool-cases (c.agent_id == "")) [
  | inl e ↦ rw e (load_all-IsKeyed creds m v)
  | inr e ↦ rw e (load_all-IsKeyed creds _ (put-IsKeyed c.agent_id c m refl e v))
]

nil-IsKeyed : IsKeyed []
unfolding lookup
nil-IsKeyed = record { own = λ k c h. cc; named = λ k c h. cc }

-- the credentials that a file holds
abbrev entries : File → List (Option AgentCredential)
entries (json creds) = creds
entries _ = []

credentials-new_persistent_store :
    (ttl : ℤ) (path : String) (file : File) (s : Store)
    → new_persistent_store ttl path file ≡ ok s
    → s.credentials ≡ (if path == "" then [] else load_all (entries file) [])
unfolding new_persistent_store
credentials-new_persistent_store ttl path (json creds) s h = ground arith
credentials-new_persistent_store ttl path _ s h = unfold load_all in ground arith

-- A store that the program opens is keyed, whatever the file holds.
pub new_persistent_store-IsKeyed :
    (ttl : ℤ) (path : String) (file : File) (s : Store)
    → new_persistent_store ttl path file ≡ ok s
    → IsKeyed s.credentials
new_persistent_store-IsKeyed ttl path file s h =
    rw (credentials-new_persistent_store ttl path file s h)
      (elim (path == "") as (λ b. IsKeyed (if b then [] else load_all (entries file) [])) [
        | true ↦ nil-IsKeyed
        | false ↦ load_all-IsKeyed (entries file) [] nil-IsKeyed
      ])

lookup-reload :
    (order : List String) (m : Map AgentCredential) (k : String)
    → IsKeyed m
    → Visits order m
    → lookup k (load_all (map some (collect order m)) []) ≡ lookup k m
unfolding lookup
lookup-reload order m k v visits = elim (Option-cases (lookup k m)) [
  | inl e ↦ ground (arith, load_all-collect order m [] k v)
  | inr (c, e) ↦ ground (arith, load_all-collect order m [] k v, visits k c e)
]

-- What a program that starts again reads.
abbrev pub restart : Store → Result Error Store
restart s = new_persistent_store s.token_ttl s.credentials_path s.file

-- After a save that reports success, a restart finds the same credentials.
pub restart-save_credentials :
    (out : SaveOutcome) (order : List String) (s : Store)
    → IsKeyed s.credentials
    → Visits order s.credentials
    → (s.credentials_path == "") ≡ false
    → (save_credentials out order s).1 ≡ ok tt
    → (t : Store) × (restart (save_credentials out order s).0 ≡ ok t)
      × ((k : String) → lookup k t.credentials ≡ lookup k s.credentials)
unfolding save_credentials new_persistent_store
restart-save_credentials saved order s v visits path done = (
  record s {
    tokens = [];
    credentials = load_all (map some (collect order s.credentials)) [];
    token_ttl = if not_positive s.token_ttl then pos hour else s.token_ttl;
    file = json (map some (collect order s.credentials));
  },
  ground arith,
  λ k. lookup-reload order s.credentials k v visits,
)
restart-save_credentials _ order s v visits path done = absurd (ground arith)

-- Only a failed write makes `RegisterCredential` report an error.
pub register_credential_error :
    (cred : AgentCredential) (out : SaveOutcome) (order : List String) (s : Store) (e : Error)
    → (register_credential (some cred) out order s).1 ≡ err e
    → out ≢ saved
unfolding register_credential
register_credential_error cred out order s e h p = ground arith

-- When `RegisterCredential` of a credential with an agent ID reports success on a store with a
-- file, whose credentials stand under their own agents, the credential is there after a restart.
pub restart-register_credential :
    (cred : AgentCredential) (out : SaveOutcome) (order : List String) (s : Store)
    → IsKeyed s.credentials
    → Visits order (put cred.agent_id cred s.credentials)
    → (s.credentials_path == "") ≡ false
    → (cred.agent_id == "") ≡ false
    → (register_credential (some cred) out order s).1 ≡ ok tt
    → (t : Store) × (restart (register_credential (some cred) out order s).0 ≡ ok t)
      × (get_credential cred.agent_id t ≡ some cred)
unfolding register_credential get_credential
restart-register_credential cred out order s v visits path named done =
    let s' : Store = record s { credentials = put cred.agent_id cred s.credentials } in
    let (t, read, same) =
      restart-save_credentials out order s'
        (put-IsKeyed cred.agent_id cred s.credentials refl named v) visits path (ground arith) in
    (t, rw named read, rw same (rw (lookup-put, eq_refl) refl))

-- the credential, disabled
abbrev pub disabled : AgentCredential → AgentCredential
disabled c = record c { active = false }

pub revoke_credential_found :
    (agent_id : String) (out : SaveOutcome) (order : List String) (s : Store) (c : AgentCredential)
    → lookup agent_id s.credentials ≡ some c
    → revoke_credential agent_id out order s
      ≡ save_credentials out order
          (record s { credentials = put agent_id (disabled c) s.credentials })
unfolding revoke_credential
revoke_credential_found agent_id out order s c e = ground arith

pub revoke_credential_missing :
    (agent_id : String) (out : SaveOutcome) (order : List String) (s : Store)
    → lookup agent_id s.credentials ≡ none
    → revoke_credential agent_id out order s ≡ (s, err credential_not_found)
unfolding revoke_credential
revoke_credential_missing agent_id out order s e = ground arith

Visits-put :
    (order : List String) (m : Map AgentCredential) (j : String) (c d : AgentCredential)
    → lookup j m ≡ some c
    → Visits order m
    → Visits order (put j d m)
Visits-put order m j c d e visits =
    λ k x. rw lookup-put (ground (arith, eq_iff j k, visits j c e, visits k x))

-- When `RevokeCredential` reports success on a store with a file, whose credentials stand under
-- their own agents, the agent's credential is there and disabled after a restart.
pub restart-revoke_credential :
    (agent_id : String) (out : SaveOutcome) (order : List String) (s : Store)
    → IsKeyed s.credentials
    → Visits order s.credentials
    → (s.credentials_path == "") ≡ false
    → (revoke_credential agent_id out order s).1 ≡ ok tt
    → (t : Store) × (c : AgentCredential) × (restart (revoke_credential agent_id out order s).0
        ≡ ok t)
      × (get_credential agent_id t ≡ some c)
      × (c.active ≡ false)
restart-revoke_credential agent_id out order s v visits path done =
    elim (Option-cases (lookup agent_id s.credentials)) [
      | inl e ↦ absurd (unfold revoke_credential in ground arith)
      | inr (c, e) ↦
          let same = revoke_credential_found agent_id out order s c e in
          let (t, read, kept) =
            restart-save_credentials out order
              (record s { credentials = put agent_id (disabled c) s.credentials })
              (put-IsKeyed agent_id (disabled c) s.credentials (v.own agent_id c e)
                (v.named agent_id c e) v)
              (Visits-put order s.credentials agent_id c (disabled c) e visits) path
              (rw same at done) in
          (
            t,
            disabled c,
            rw same read,
            unfold get_credential in rw kept (rw (lookup-put, eq_refl) refl),
            refl,
          )
    ]

-- What `GetCredentialByToken` returns is a credential of the store with this token, in whatever order
-- Go visits the map.
pub find_credential_sound :
    (token : String) (order : List String) (m : Map AgentCredential) (c : AgentCredential)
    → find_credential token order m ≡ some c
    → (k : String) × (lookup k m ≡ some c) × (c.credential ≡ token)
unfolding find_credential
find_credential_sound token [] m c h = cc
find_credential_sound token (j ∷ ks) m c h = elim (Option-cases (lookup j m)) [
  | inl e ↦ find_credential_sound token ks m c (ground arith)
  | inr (d, e) ↦ elim (eq_cases d.credential token) [
    | inl (p, q) ↦ (j, ground arith, ground arith)
    | inr q ↦ find_credential_sound token ks m c (ground arith)
  ]
]

-- When the store has a credential with this token under a key that Go visits, `GetCredentialByToken`
-- finds one.
pub find_credential_complete :
    (token : String) (order : List String) (m : Map AgentCredential) (k : String)
    (c : AgentCredential)
    → lookup k m ≡ some c
    → c.credential ≡ token
    → contains k order ≡ true
    → find_credential token order m ≢ none
unfolding find_credential
find_credential_complete token [] m k c found same seen = cc
find_credential_complete token (j ∷ ks) m k c found same seen = ground (
  arith,
  find_credential_complete token ks m k c found same,
  eq_iff j k,
  eq_iff c.credential token,
)
