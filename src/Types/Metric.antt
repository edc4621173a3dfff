-- ===== src/Types/Metric.antt =====
-- jamsys-daemon/src/types.rs: the identity of a metric, and a sample of it.
use jamsys.Types.{Severity}
use jamsys.Prelude.{[], ◌∷◌, ◌++◌, if◌then◌else◌, Text, is_empty}

pub record MetricId : Type 0 where
  pub subsystem : Text
  pub name : Text
  pub instance_name : Text

pub record Sample {ℓ} (F : Type ℓ) : Type ℓ where
  pub id : MetricId
  pub value : F

unfoldable pub key : MetricId → Text
key m =
    let plain = m.subsystem ++ (b'.' ∷ m.name) in
    if is_empty m.instance_name then plain else plain ++ (b'[' ∷ m.instance_name ++ (b']' ∷ []))

-- The time and the detail of an event are left out.
pub record Event : Type 0 where
  pub subsystem : Text
  pub kind : Text
  pub summary : Text
  pub severity : Severity
