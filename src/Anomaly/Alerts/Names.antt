-- ===== src/Anomaly/Alerts/Names.antt =====
-- The instance that a fingerprint names, which suppressions by instance are compared with.
use jamsys.Prelude.{
  ℕ, ◌≡◌, refl, none, [], ◌∷◌, ◌++◌, Text, codes, strip_prefix, strip_prefix-append, append_assoc,
  arith,
}
use jamsys.Types.{Severity, Explanation, new_alert}
use jamsys.Anomaly.Alerts.Raise.{instance_of}

strip_prefix-longer : (p : Text) (c : ℕ) → strip_prefix (p ++ (c ∷ [])) p ≡ none
unfolding strip_prefix
strip_prefix-longer [] c = refl
strip_prefix-longer (d ∷ p) c = ground (arith, strip_prefix-longer p c)

-- Whatever the rule and the instance, colons included, the fingerprint that an alert is built with
-- gives the instance back.
instance_of-new_alert :
    (rule instance_name : Text) (severity : Severity) (title : Text) (e : Explanation)
    → instance_of (new_alert rule instance_name severity title e) ≡ instance_name
unfolding instance_of new_alert
instance_of-new_alert rule [] severity title e = rw (strip_prefix-longer rule b':') refl
instance_of-new_alert rule (c ∷ rest) severity title e =
    let whole : (rule ++ codes ":") ++ (c ∷ rest) ≡ rule ++ (codes ":" ++ (c ∷ rest)) =
      append_assoc rule (codes ":") (c ∷ rest) in
    rw (← whole, strip_prefix-append (rule ++ codes ":") (c ∷ rest)) refl
