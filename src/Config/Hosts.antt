-- ===== src/Config/Hosts.antt =====
-- The hosts of backend/internal/config/config.go.
use podman_manager.Prelude.{
  ℕ, suc, String, Bool, true, false, not, ◌&&◌, List, [], ◌∷◌, Result, ok, err, ◌>>=◌, ◌==◌,
  if◌then◌else◌, trim_space, contains, ℤ, pos, negsuc,
}
use podman_manager.Config.Lower.{Runes, lower}

pub record HostConfig : Type 0 where
  pub name : String
  pub address : String
  pub port : ℤ
  pub user : String
  pub mode : String
  pub transport : String
  pub agent_id : String

pub data HostError : Type 0 where
  name_required duplicate_name bad_transport agent_id_required : HostError
  address_required user_required bad_mode : HostError

abbrev pub is_nil {ℓ} : {A : Type ℓ} → List A → Bool
is_nil [] = true
is_nil (x ∷ xs) = false

abbrev pub is_zero : ℤ → Bool
is_zero (pos ℕ.zero) = true
is_zero (pos (suc n)) = false
is_zero (negsuc n) = false

unfoldable pub transport_of : Runes → HostConfig → String
unfolding lower trim_space
transport_of runes h = let t = lower runes (trim_space h.transport) in if t == "" then "ssh" else t

-- what the loop writes back
unfoldable pub completed : Runes → HostConfig → HostConfig
unfolding transport_of
completed runes h = record h {
  transport = transport_of runes h;
  port = if is_zero h.port then pos 22 else h.port;
}

-- the checks of a round, where `names` are the hosts before
unfoldable pub check_host : Runes → List String → HostConfig → Result HostError HostConfig
unfolding completed trim_space
check_host runes names h =
    let t = transport_of runes h in
    if h.name == ""
    then err name_required
    else (if contains h.name names
        then err duplicate_name
        else (if not (t == "ssh") && not (t == "agent")
            then err bad_transport
            else (if t == "agent" && trim_space h.agent_id == ""
                then err agent_id_required
                else (if h.address == ""
                    then err address_required
                    else (if h.user == ""
                        then err user_required
                        else (if not (h.mode == "rootful") && not (h.mode == "rootless")
                            then err bad_mode
                            else ok (completed runes h)))))))

unfoldable pub validate_hosts :
    Runes → List String → List HostConfig → Result HostError (List HostConfig)
unfolding check_host
validate_hosts runes names [] = ok []
validate_hosts runes names (h ∷ hs) =
    let rest = validate_hosts runes (h.name ∷ names) hs in
    check_host runes names h >>= λ c. rest >>= λ cs. ok (c ∷ cs)
