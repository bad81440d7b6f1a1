-- ===== src/Connect/Settings/Bounds.antt =====
-- What the settings of the agent (agent/internal/config/config.go) are after they were checked.
use podman_manager.Prelude.{
  true, false, ok, bind_inv, ◌==◌, ◌≡◌, refl, ap, ◌∙◌, trim_space, ℤ, not_positive, arith, inl, inr,
  Bool-cases, suc, ℕ,
}
use podman_manager.Config.Lower.{Runes}
use podman_manager.Connect.Settings.{
  Settings, Floats, less, or_default, is_level, is_format, fill_settings, validate_level,
  validate_format, validate_settings,
}

validate_level_kept :
    (runes : Runes) (s t : Settings)
    → validate_level runes s ≡ ok t
    → (t.heartbeat_interval ≡ s.heartbeat_interval)
      × (t.initial_backoff ≡ s.initial_backoff)
      × (t.max_backoff ≡ s.max_backoff)
      × (is_level t.log_level ≡ true)
unfolding validate_level
validate_level_kept runes s t h = (ground (arith), ground (arith), ground (arith), ground (arith))

validate_format_kept :
    (runes : Runes) (s t : Settings)
    → validate_format runes s ≡ ok t
    → (t.heartbeat_interval ≡ s.heartbeat_interval)
      × (t.initial_backoff ≡ s.initial_backoff)
      × (t.max_backoff ≡ s.max_backoff)
      × (t.log_level ≡ s.log_level)
      × (is_format t.log_format ≡ true)
unfolding validate_format
validate_format_kept runes s t h =
    (ground (arith), ground (arith), ground (arith), ground (arith), ground (arith))

or_default_positive : (z : ℤ) (n : ℕ) → not_positive (or_default z (suc n)) ≡ false
or_default_positive z n = elim (Bool-cases (not_positive z)) [ inl e ↦ rw e refl | inr e ↦ rw e e ]

-- Settings that pass have a positive interval of heartbeats, a positive first delay, a longest delay
-- that is no shorter, and one of the levels and one of the formats of the log.
pub validate_settings_bounds :
    (runes : Runes) (floats : Floats) (s t : Settings)
    → validate_settings runes floats s ≡ ok t
    → (not_positive t.heartbeat_interval ≡ false)
      × (not_positive t.initial_backoff ≡ false)
      × (less t.max_backoff t.initial_backoff ≡ false)
      × (is_level t.log_level ≡ true)
      × (is_format t.log_format ≡ true)
unfolding validate_settings fill_settings
validate_settings_bounds runes floats given t h =
    let address = trim_space given.manager_address in
    let s = fill_settings floats (record given { manager_address = address }) in
    elim (Bool-cases (address == "")) [
      | inl e ↦ let k = rw (e, validate_settings) at h in cc
      | inr e ↦ elim (Bool-cases (less s.max_backoff s.initial_backoff)) [
        | inl f ↦ let k = rw (e, f, validate_settings) at h in cc
        | inr f ↦
            let k = rw (e, f, validate_settings) at h in
            let (u, lv, fm) = bind_inv (validate_level runes s) (validate_format runes) t k in
            let (i1, b1, m1, l1) = validate_level_kept runes s u lv in
            let (i2, b2, m2, l2, f2) = validate_format_kept runes u t fm in
            (
              ap not_positive (i2 ∙ i1)
                  ∙ or_default_positive given.heartbeat_interval 14_999_999_999,
              ap not_positive (b2 ∙ b1) ∙ or_default_positive given.initial_backoff 999_999_999,
              (λ i. less ((m2 ∙ m1) i) ((b2 ∙ b1) i)) ∙ f,
              ap is_level l2 ∙ l1,
              f2,
            )
      ]
    ]
