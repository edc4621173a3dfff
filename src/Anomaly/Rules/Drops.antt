-- ===== src/Anomaly/Rules/Drops.antt =====
-- A disconnect that the Bluetooth collector notes is reported by the rules.
pub mod Noticed
mod Tests
use mathlib.Core.List.{reverse_aux, Memᴰ}
use jamsys.Prelude.{
  ℕ, ◌+◌, ◌*◌, ◌≤◌, ◌≡◌, ◌⊎◌, refl, sym, ap, subst, Bool, true, false, not, ◌&&◌, ◌||◌, Option,
  none, some, List, [], ◌∷◌, ◌++◌, leb, ltb, if◌then◌else◌, length, any, reverse, unwrap_or,
  is_empty, inl, inr, Bool-cases, Option-cases, arith, Text, codes, text_eq, text_eq_refl,
  text_eq_iff, text_is_eq,
}
use jamsys.Prelude.Dict.{Dict, get}
use jamsys.Prelude.Real.{Real}
use jamsys.Types.{Alert, new_alert}
use jamsys.Types.Context.{Context}
use jamsys.Collectors.Snapshot.{Snapshot, BtState, BtEvent}
use jamsys.Anomaly.Rules.{RuleEngine, Thresholds, fire, fire_if, each, limit}
use jamsys.Anomaly.Rules.Laws.{IsKept}
use jamsys.Anomaly.Rules.Laws.Learning.{learned_rules-kept}
use jamsys.Anomaly.Rules.Bluetooth.{
  is_drop, flapping, dropped, is_single, flap_rule, drop_rule, bluetooth_rules,
}
use jamsys.Anomaly.Rules.Evaluation.{evaluate}

-- The fingerprints that speak of the device of this name.
abbrev pub speaks_of : Text → Text → Bool
speaks_of name fp =
    text_eq fp (codes "bluetooth.disconnected" ++ (codes ":" ++ name))
    || text_eq fp (codes "bluetooth.flapping" ++ (codes ":" ++ name))

any-append :
    (name : Text) (fps : List Text) (fp : Text)
    → any (speaks_of name) (fps ++ (fp ∷ [])) ≡ any (speaks_of name) fps || speaks_of name fp
any-append name [] fp = ground arith
any-append name (x ∷ fps) fp = ground (arith, any-append name fps fp)

speaks_dropped :
    (bt : BtState) (now : ℕ) (ev : BtEvent)
    → is_empty ev.name ≡ false
    → speaks_of ev.name (dropped bt now ev).fingerprint ≡ true
unfolding dropped new_alert
speaks_dropped bt now ev named =
    rw named
      (ground (arith, text_eq_refl (codes "bluetooth.disconnected" ++ (codes ":" ++ ev.name))))

speaks_flapping :
    (bt : BtState) (name : Text) (count : ℕ)
    → is_empty name ≡ false
    → speaks_of name (flapping bt name count).fingerprint ≡ true
unfolding flapping new_alert
speaks_flapping bt name count named =
    rw named (ground (arith, text_eq_refl (codes "bluetooth.flapping" ++ (codes ":" ++ name))))

reverse_aux-Memᴰ {ℓ} :
    {A : Type ℓ} (a : A) (xs ys : List A) → (Memᴰ a xs ⊎ Memᴰ a ys) → Memᴰ a (reverse_aux xs ys)
reverse_aux-Memᴰ a [] ys (inl m) = elim m [ ]
reverse_aux-Memᴰ a [] ys (inr m) = m
reverse_aux-Memᴰ a (x ∷ xs) ys (inl (Memᴰ.head q)) =
    reverse_aux-Memᴰ a xs (x ∷ ys) (inr (Memᴰ.head q))
reverse_aux-Memᴰ a (x ∷ xs) ys (inl (Memᴰ.tail m)) = reverse_aux-Memᴰ a xs (x ∷ ys) (inl m)
reverse_aux-Memᴰ a (x ∷ xs) ys (inr m) = reverse_aux-Memᴰ a xs (x ∷ ys) (inr (Memᴰ.tail m))

get-Memᴰ : (k : Text) (n : ℕ) (m : Dict Text ℕ) → get k m ≡ some n → Memᴰ (k, n) m
unfolding get
get-Memᴰ k n [] h = cc
get-Memᴰ k n ((j, v) ∷ m) h = elim (Bool-cases (text_eq j k)) [
  | inr q ↦ Memᴰ.tail (get-Memᴰ k n m (ground (arith, h, q)))
  | inl q ↦
      let same = (text_eq_iff j k).0 q in
      let is : v ≡ n = ground (arith, h, q) in Memᴰ.head (cc (same, is))
]

module _ {ℓ} {F : Type ℓ} (name : Text) where
  -- It is reported that the device dropped, once or repeatedly.
  unfoldable pub IsReported : RuleEngine F → Type 0
  IsReported e = any (speaks_of name) e.firing ≡ true

  IsReported-IsKept : IsKept IsReported
  unfolding IsReported fire
  IsReported-IsKept = record {
    fired = λ a e o p. ground (arith, any-append name e.firing a.fingerprint, p);
    dwelt = λ key condition now required e other p. p;
    cleared = λ key e other p. p;
    learned = λ b e p. p;
  }

  fire_if-kept :
      (c : Bool) (a : Alert) (e : RuleEngine F) → IsReported e → IsReported (fire_if c a e)
  unfolding IsReported fire_if fire
  fire_if-kept true a e p = ground (arith, any-append name e.firing a.fingerprint, p)
  fire_if-kept false a e p = p

  fire_if-reports :
      (c : Bool) (a : Alert) (e : RuleEngine F)
      → c ≡ true
      → speaks_of name a.fingerprint ≡ true
      → IsReported (fire_if c a e)
  unfolding IsReported fire_if fire
  fire_if-reports true a e q s = ground (arith, any-append name e.firing a.fingerprint, s)
  fire_if-reports false a e q s = cc

  module _ {κ} {A : Type κ} (f : A → RuleEngine F → RuleEngine F) where
    each-goes_on :
        (xs : List A) (e : RuleEngine F)
        → ((a : A) (e : RuleEngine F) → IsReported e → IsReported (f a e))
        → IsReported e
        → IsReported (each f xs e)
    unfolding each
    each-goes_on [] e keep p = p
    each-goes_on (a ∷ rest) e keep p = each-goes_on rest (f a e) keep (keep a e p)

    each-reports :
        (a : A) (xs : List A) (e : RuleEngine F)
        → ((a : A) (e : RuleEngine F) → IsReported e → IsReported (f a e))
        → ((e : RuleEngine F) → IsReported (f a e))
        → Memᴰ a xs
        → IsReported (each f xs e)
    unfolding each
    each-reports a [] e keep now m = elim m [ ]
    each-reports a (x ∷ rest) e keep now (Memᴰ.head q) =
        each-goes_on rest (f x e) keep (subst (λ y. IsReported (f y e)) q (now e))
    each-reports a (x ∷ rest) e keep now (Memᴰ.tail m) = each-reports a rest (f x e) keep now m

module _ {ℓ} {F : Type ℓ} ⦃d : Real F⦄ where
  -- How long a disconnect is reported, and how many of them are flapping.
  abbrev pub hold_ms : Thresholds F → ℕ
  hold_ms cfg = d.trunc (limit cfg (codes "bluetooth.disconnect.hold") (codes "seconds") 120) * 1000

  abbrev pub flap_min : Thresholds F → ℕ
  flap_min cfg = d.trunc (limit cfg (codes "bluetooth.flap.count") (codes "disconnects") 3)

  flaps-report :
      (bt : BtState) (name : Text) (least n : ℕ) (e : RuleEngine F)
      → is_empty name ≡ false
      → get name bt.recent_disconnects ≡ some n
      → least ≤ n
      → IsReported name (each (flap_rule bt least) bt.recent_disconnects e)
  unfolding flap_rule
  flaps-report bt name least n e named found enough =
      each-reports name (flap_rule bt least) (name, n) bt.recent_disconnects e
        (λ a e' p. fire_if-kept name (not (ltb a.1 least)) (flapping bt a.0 a.1) e' p)
        (λ e'.
          fire_if-reports name (not (ltb n least)) (flapping bt name n) e' (ground (arith, enough))
            (speaks_flapping bt name n named))
        (get-Memᴰ name n bt.recent_disconnects found)

  drop_rule-goes_on :
      (bt : BtState) (hold least now : ℕ) (name : Text) (a : BtEvent) (e : RuleEngine F)
      → IsReported name e
      → IsReported name (drop_rule bt hold least now a e)
  unfolding drop_rule
  drop_rule-goes_on bt hold least now name a e p =
      fire_if-kept name (is_single bt hold least now a) (dropped bt now a) e p

  single-report :
      (bt : BtState) (hold least now : ℕ) (ev : BtEvent) (e : RuleEngine F)
      → is_drop ev ≡ true
      → is_empty ev.name ≡ false
      → now ≤ ev.at_mono_ms + hold
      → leb least (unwrap_or 0 (get ev.name bt.recent_disconnects)) ≡ false
      → IsReported ev.name (drop_rule bt hold least now ev e)
  unfolding drop_rule is_single
  single-report bt hold least now ev e drop named soon few =
      fire_if-reports ev.name (is_single bt hold least now ev) (dropped bt now ev) e
        (ground (arith, drop, soon, few)) (speaks_dropped bt now ev named)

  bluetooth_rules-report :
      (bt : BtState) (cfg : Thresholds F) (now : ℕ) (e : RuleEngine F) (ev : BtEvent)
      → bt.bluez_available ≡ true
      → Memᴰ ev bt.events
      → is_drop ev ≡ true
      → is_empty ev.name ≡ false
      → now ≤ ev.at_mono_ms + hold_ms cfg
      → 1 ≤ flap_min cfg
      → IsReported ev.name (bluetooth_rules bt cfg now e)
  unfolding bluetooth_rules
  bluetooth_rules-report bt cfg now e ev there m drop named soon some_min =
      let after : RuleEngine F = each (flap_rule bt (flap_min cfg)) bt.recent_disconnects e in
      let rule : BtEvent → RuleEngine F → RuleEngine F =
        drop_rule bt (hold_ms cfg) (flap_min cfg) now in
      elim (Bool-cases (leb (flap_min cfg) (unwrap_or 0 (get ev.name bt.recent_disconnects)))) [
        | inr q ↦ rw there (
            each-reports ev.name rule ev (reverse bt.events) after
              (drop_rule-goes_on bt (hold_ms cfg) (flap_min cfg) now ev.name)
              (λ e'. single-report bt (hold_ms cfg) (flap_min cfg) now ev e' drop named soon q)
              (reverse_aux-Memᴰ ev bt.events [] (inl m)))
        | inl q ↦ elim (Option-cases (get ev.name bt.recent_disconnects)) [
          | inl n ↦ ground (arith, q, n, some_min)
          | inr (n, f) ↦ rw there (
              each-goes_on ev.name rule (reverse bt.events) after
                (drop_rule-goes_on bt (hold_ms cfg) (flap_min cfg) now ev.name)
                (flaps-report bt ev.name (flap_min cfg) n e named f (ground (arith, q, f))))
        ]
      ]

  -- A disconnect that the collector holds is reported by every evaluation, until its time is over, as one
  -- of its device or as flapping, whatever else is found, if flapping takes one disconnect at least.
  pub evaluate-drop :
      (s : Snapshot F) (cfg : Thresholds F) (ctx : Context) (now : ℕ) (e : RuleEngine F)
      (ev : BtEvent)
      → s.bluetooth.bluez_available ≡ true
      → Memᴰ ev s.bluetooth.events
      → is_drop ev ≡ true
      → is_empty ev.name ≡ false
      → now ≤ ev.at_mono_ms + hold_ms cfg
      → 1 ≤ flap_min cfg
      → IsReported ev.name (evaluate s cfg ctx now e)
  unfolding evaluate
  evaluate-drop s cfg ctx now e ev there m drop named soon some_min =
      learned_rules-kept (IsReported-IsKept ev.name) s cfg ctx now _
        (bluetooth_rules-report s.bluetooth cfg now _ ev there m drop named soon some_min)
