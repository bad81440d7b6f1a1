-- ===== src/Connect/Settings.antt =====
-- `Validate` of agent/internal/config/config.go: the settings of the agent that it reads. A multiplier is a float64; its
-- test and its default are arguments.
mod Bounds
use podman_manager.Prelude.{
  ℕ, suc, String, Bool, true, false, not, ◌||◌, Result, ok, err, ◌==◌, if◌then◌else◌, trim_space, ℤ,
  pos, negsuc, not_positive, second, ◌*◌, ltb, ◌>>=◌,
}
use podman_manager.Config.Lower.{Runes, lower}

pub record Settings : Type 0 where
  pub manager_address : String
  pub podman_timeout : ℤ
  pub heartbeat_interval : ℤ
  pub heartbeat_timeout : ℤ
  pub initial_backoff : ℤ
  pub max_backoff : ℤ
  pub multiplier : ℕ
  pub log_level : String
  pub log_format : String

pub data SettingsError : Type 0 where
  address_required backoffs_swapped bad_level bad_format : SettingsError

-- a multiplier as its bits: whether it is at most 0, and the bits of 2.0
pub record Floats : Type 0 where
  pub is_not_positive : ℕ → Bool
  pub two : ℕ

abbrev pub less : ℤ → ℤ → Bool
less (pos m) (pos n) = ltb m n
less (pos m) (negsuc n) = false
less (negsuc m) (pos n) = true
less (negsuc m) (negsuc n) = ltb n m

abbrev pub or_default : ℤ → ℕ → ℤ
or_default z d = if not_positive z then pos d else z

abbrev pub or_text : String → String → String
or_text s d = if s == "" then d else s

abbrev pub is_level : String → Bool
is_level l = l == "debug" || l == "info" || l == "warn" || l == "warning" || l == "error"

abbrev pub is_format : String → Bool
is_format f = f == "json" || f == "text"

-- the defaults of the durations and of the multiplier
unfoldable pub fill_settings : Floats → Settings → Settings
fill_settings floats s = record s {
  podman_timeout = or_default s.podman_timeout (10 * second);
  heartbeat_interval = or_default s.heartbeat_interval (15 * second);
  heartbeat_timeout = or_default s.heartbeat_timeout (5 * second);
  initial_backoff = or_default s.initial_backoff second;
  max_backoff = or_default s.max_backoff (60 * second);
  multiplier = if floats.is_not_positive s.multiplier then floats.two else s.multiplier;
}

unfoldable pub validate_level : Runes → Settings → Result SettingsError Settings
unfolding lower trim_space
validate_level runes s =
    let level = or_text (lower runes (trim_space s.log_level)) "info" in
    if is_level level then ok (record s { log_level = level }) else err bad_level

unfoldable pub validate_format : Runes → Settings → Result SettingsError Settings
unfolding lower trim_space
validate_format runes s =
    let format = or_text (lower runes (trim_space s.log_format)) "json" in
    if is_format format then ok (record s { log_format = format }) else err bad_format

unfoldable pub validate_settings : Runes → Floats → Settings → Result SettingsError Settings
unfolding fill_settings validate_level validate_format trim_space
validate_settings runes floats given =
    let address = trim_space given.manager_address in
    let s = fill_settings floats (record given { manager_address = address }) in
    if address == ""
    then err address_required
    else (if less s.max_backoff s.initial_backoff
        then err backoffs_swapped
        else validate_level runes s >>= validate_format runes)
