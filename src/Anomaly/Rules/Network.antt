-- ===== src/Anomaly/Rules/Network.antt =====
-- jamsys-daemon/src/anomaly/rules.rs: `network_rules`.
use jamsys.Prelude.{
  ℕ, Bool, true, false, not, ◌&&◌, Option, none, some, [], ◌∷◌, ◌++◌, if◌then◌else◌, Text, codes,
  text_eq, unwrap_or,
}
use jamsys.Prelude.Decimal.{to_string}
use jamsys.Prelude.Real.{Real}
use jamsys.Types.{Alert, new_alert, warning, notice}
use jamsys.Collectors.Snapshot.{Snapshot, Iface, Reachability}
use jamsys.Anomaly.Rules.{
  RuleEngine, Thresholds, format, evidence, explained, fire_held, each, limit,
}
use jamsys.Anomaly.Rules.Causes.{unknown}

unfoldable pub gw_ok : Reachability → Bool
gw_ok r = unwrap_or false r.gateway_ok

unfoldable pub net_ok : Reachability → Bool
net_ok r = unwrap_or true r.internet_ok

unfoldable pub dns_ok : Reachability → Bool
dns_ok r = unwrap_or true r.dns_ok

unfoldable pub no_internet : Reachability → ℕ → Alert
unfolding dns_ok
no_internet r held =
    new_alert (codes "net.no_internet") [] notice
      (codes "Local network works but the internet does not")
      (explained (codes "Your router responds, but an outside address does not.")
        (some (codes "both reachable")) held
        (evidence (codes "Gateway") (unwrap_or unknown r.gateway)
          ∷ evidence (codes "DNS") (if dns_ok r then codes "reachable" else codes "unreachable")
          ∷ [])
        (some (codes "The problem is upstream of your machine — the router's uplink or your ISP"))
        (codes "Restarting your own machine will not help; check the router" ∷ []))

unfoldable pub dns_fail : Reachability → ℕ → Alert
dns_fail r held = new_alert (codes "net.dns_fail") [] warning (codes "DNS is not responding") (
    explained (codes "The configured DNS server did not accept a connection while the gateway did.")
      (some (codes "DNS reachable")) held (evidence (codes "Gateway") (unwrap_or [] r.gateway) ∷ [])
      none
      (codes "Names will not resolve even though the network is up"
        ∷ codes "Check:  resolvectl status"
        ∷ []))

module _ {ℓ} {F : Type ℓ} ⦃d : Real F⦄ where
  signal_text : Option F → Text
  signal_text none = codes "n/a"
  signal_text (some dbm) = d.fixed 0 dbm ++ codes " dBm"

  -- `d < -70.0`.
  is_weak : Option F → Bool
  is_weak none = false
  is_weak (some dbm) = d.lt dbm (d.sub (d.of_ℕ 0) (d.of_ℕ 70))

  unfoldable pub dropping : Iface F → F → ℕ → Alert
  unfolding signal_text is_weak
  dropping i err_thresh held =
      new_alert (codes "net.errors") i.name warning (i.name ++ codes " is dropping packets") (
        explained
          (format (
            i.name
            ∷ codes " shows a "
            ∷ d.fixed 2 i.error_rate_pct
            ∷ codes "% error and drop rate."
            ∷ []))
          (some (format (codes "below " ∷ d.fixed 1 err_thresh ∷ codes "%" ∷ []))) held
          (evidence (codes "RX errors / drops")
              (format (to_string i.rx_errors ∷ codes " / " ∷ to_string i.rx_dropped ∷ []))
            ∷ evidence (codes "TX errors / drops")
                (format (to_string i.tx_errors ∷ codes " / " ∷ to_string i.tx_dropped ∷ []))
            ∷ evidence (codes "Signal") (signal_text i.signal_dbm)
            ∷ [])
          (some (
            if text_eq i.kind (codes "wifi") && is_weak i.signal_dbm
            then codes "Weak Wi-Fi signal"
            else codes "Driver, cable or interference"))
          (codes "Move closer to the access point, or check the cable" ∷ []))

  unfoldable pub iface_rule : Thresholds F → ℕ → Iface F → RuleEngine F → RuleEngine F
  unfolding dropping
  iface_rule cfg now i e =
      let err_thresh = limit cfg (codes "net.errors") (codes "pct") 1 in
      if text_eq i.kind (codes "loopback")
      then e
      else fire_held (codes "net.errors:" ++ i.name) (d.le err_thresh i.error_rate_pct) now 60
          (dropping i err_thresh) e

  unfoldable pub reach_rules : Reachability → ℕ → RuleEngine F → RuleEngine F
  unfolding gw_ok net_ok dns_ok no_internet dns_fail
  reach_rules r now e =
      let e =
        fire_held (codes "net.no_internet") (gw_ok r && not (net_ok r)) now 120 (no_internet r) e in
      fire_held (codes "net.dns_fail") (gw_ok r && not (dns_ok r)) now 120 (dns_fail r) e

  unfoldable pub network_rules : Snapshot F → Thresholds F → ℕ → RuleEngine F → RuleEngine F
  unfolding iface_rule reach_rules each
  network_rules s cfg now e =
      reach_rules s.network.reach now (each (iface_rule cfg now) s.network.ifaces e)
