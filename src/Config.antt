-- ===== src/Config.antt =====
-- jamsys-daemon/src/config.rs: the settings that the modelled parts read.
use jamsys.Prelude.{
  ℕ, ◌^◌, ◌-◌, Bool, true, ◌∷◌, ◌++◌, if◌then◌else◌, Text, codes, text_eq, text_is_eq, unwrap_or,
}
use jamsys.Prelude.Dict
use jamsys.Prelude.Dict.{Dict}
use jamsys.Prelude.Int.{ℤ}
use jamsys.Types.{
  Severity, info, notice, warning, critical, Tier, fast, medium, slow, glacial, event,
}
use jamsys.Util.Glob.{to_ascii_lowercase}

pub record AlertsConfig : Type 0 where
  pub desktop_notifications : Bool
  pub min_notify_severity : Text
  pub burst : ℕ
  pub refill_s : ℤ

unfoldable pub min_notify : AlertsConfig → Severity
min_notify c =
    let s = to_ascii_lowercase c.min_notify_severity in
    if text_eq s (codes "info")
    then info
    else if text_eq s (codes "warning")
    then warning
    else if text_eq s (codes "critical")
    then critical
    else notice

-- The period of each tier. The rest of the section is not read by the modelled parts.
pub record Sampling : Type 0 where
  pub fast_ms : ℕ
  pub medium_ms : ℕ
  pub slow_ms : ℕ
  pub glacial_ms : ℕ

abbrev pub u64_max : ℕ
u64_max = 2 ^ 64 - 1

unfoldable pub tier_ms : Sampling → Tier → ℕ
tier_ms s fast = s.fast_ms
tier_ms s medium = s.medium_ms
tier_ms s slow = s.slow_ms
tier_ms s glacial = s.glacial_ms
tier_ms s event = u64_max

-- A collector is on unless the settings say otherwise.
unfoldable pub enabled : Dict Text Bool → Text → Bool
enabled collectors name = unwrap_or true (Dict.get name collectors)

-- A threshold that the user set, or the one built in.
unfoldable pub threshold {ℓ} : {F : Type ℓ} → Dict Text F → Text → Text → F → F
threshold thresholds rule key default =
    unwrap_or default (Dict.get (rule ++ (b'.' ∷ key)) thresholds)
