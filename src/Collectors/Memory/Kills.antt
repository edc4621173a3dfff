-- ===== src/Collectors/Memory/Kills.antt =====
-- Every process that the kernel kills is reported once.
use jamsys.Prelude.{
  ℕ, ◌+◌, ◌-◌, ◌≤◌, ◌≡◌, ◌⊎◌, refl, ap, subst, ◌∙◌, true, false, Option, none, some, List, [], ◌∷◌,
  ◌++◌, map, ◌==◌, ltb, inl, inr, Bool-cases, Option-cases, arith, codes,
}
use jamsys.Prelude.Real.{Real}
use jamsys.Prelude.Results.{Result, ok, err, Result-cases}
use jamsys.Types.Metric.{Event, Sample}
use jamsys.Collectors.Registry.{CollectorError}
use jamsys.Collectors.Snapshot.{MemState}
use jamsys.Collectors.Memory.{
  MemCollector, Proc, kb, killed, oom_event, oom_events, remember, collect,
}

abbrev pub sum : List ℕ → ℕ
sum [] = 0
sum (n ∷ ns) = n + sum ns

events_more :
    (prev : Option ℕ) (first n : ℕ)
    → prev ≡ some first
    → ltb first n ≡ true
    → oom_events (killed prev (some n)) ≡ oom_event (n - first) ∷ []
unfolding oom_events killed
events_more prev first n q more = rw (q, more) refl

events_same :
    (prev : Option ℕ) (first n : ℕ)
    → prev ≡ some first
    → ltb first n ≡ false
    → oom_events (killed prev (some n)) ≡ []
unfolding oom_events killed
events_same prev first n q same = rw (q, same) refl

module _ {ℓ} {F : Type ℓ} where
  abbrev events_of : Result CollectorError (MemState F × List (Sample F) × List Event) → List Event
  events_of (err e) = []
  events_of (ok (st, samples, events)) = events

  -- The kernel's counter never falls; it may be missing from a pass.
  unfoldable pub IsRising : ℕ → List (Proc F) → Type 0
  IsRising least [] = Unit
  IsRising least (p ∷ ps) = elim p.oom_kill [
    | none ↦ IsRising least ps
    | some n ↦ (least ≤ n) × IsRising n ps
  ]

  unfoldable pub watch : ⦃d : Real F⦄ → List (Proc F) → MemCollector → MemCollector × List Event
  watch [] c = (c, [])
  watch (p ∷ ps) c =
      let (c', r) = collect p c in let (last, events) = watch ps c' in (last, events_of r ++ events)

  -- A pass that fails, or in which the counter is missing, changes nothing; any other takes it over.
  record IsPass (p : Proc F) (c c' : MemCollector) (events : List Event) : Type 0 where
    idle_or_taken :
        ((c'.prev_oom ≡ c.prev_oom) × (events ≡ []))
        ⊎ ((n : ℕ) × (p.oom_kill ≡ some n)
            × (c'.prev_oom ≡ some n)
            × (events ≡ oom_events (killed c.prev_oom (some n))))

  collect-IsPass :
      ⦃d : Real F⦄ (p : Proc F) (c : MemCollector)
      → IsPass p c (collect p c).0 (events_of (collect p c).1)
  unfolding collect remember killed oom_events
  collect-IsPass p c = record {
    idle_or_taken = elim (Result-cases p.meminfo) [
      | inr (e, q) ↦ rw q (inl (refl, refl))
      | inl (m, q) ↦ elim (Bool-cases (kb m (codes "MemTotal") == 0)) [
        | inl z ↦ rw (q, z) (inl (refl, refl))
        | inr z ↦ elim (Option-cases p.oom_kill) [
          | inl n ↦ rw (q, z, n) (inl (refl, refl))
          | inr (n, k) ↦ rw (q, z, k) (inr (n, refl, refl, refl))
        ]
      ]
    ];
  }

  IsRising-le : (m n : ℕ) (ps : List (Proc F)) → m ≤ n → IsRising n ps → IsRising m ps
  unfolding IsRising
  IsRising-le m n [] le h = tt
  IsRising-le m n (p ∷ ps) le h = elim (Option-cases p.oom_kill) [
    | inl q ↦ rw q (
        IsRising-le m n ps le
          (subst (λ o. elim o [ none ↦ IsRising n ps | some k ↦ (n ≤ k) × IsRising k ps ]) q h))
    | inr (k, q) ↦
        let (more, rest) =
          subst (λ o. elim o [ none ↦ IsRising n ps | some k ↦ (n ≤ k) × IsRising k ps ]) q h in
        rw q (omega (arith, le, more), rest)
  ]

  -- The rest of the passes, after one that changed nothing.
  IsRising-later :
      (least : ℕ) (p : Proc F) (ps : List (Proc F)) → IsRising least (p ∷ ps) → IsRising least ps
  unfolding IsRising
  IsRising-later least p ps h = elim (Option-cases p.oom_kill) [
    | inl q ↦
        subst (λ o. elim o [ none ↦ IsRising least ps | some k ↦ (least ≤ k) × IsRising k ps ]) q h
    | inr (k, q) ↦
        let (more, rest) =
          subst (λ o. elim o [ none ↦ IsRising least ps | some k ↦ (least ≤ k) × IsRising k ps ]) q
            h in
        IsRising-le least k ps more rest
  ]

  IsRising-next :
      (least n : ℕ) (p : Proc F) (ps : List (Proc F))
      → p.oom_kill ≡ some n
      → IsRising least (p ∷ ps)
      → (least ≤ n) × IsRising n ps
  unfolding IsRising
  IsRising-next least n p ps q h =
      subst (λ o. elim o [ none ↦ IsRising least ps | some k ↦ (least ≤ k) × IsRising k ps ]) q h

  -- However many passes fail or find no counter: the events report, in numbers that add up to it, by how
  -- much the kernel's counter of killed processes has risen since it was first read.
  pub watch_kills :
      ⦃d : Real F⦄ (ps : List (Proc F)) (c : MemCollector) (first : ℕ)
      → c.prev_oom ≡ some first
      → IsRising first ps
      → (ks : List ℕ) × ((watch ps c).1 ≡ map oom_event ks)
        × ((watch ps c).0.prev_oom ≡ some (first + sum ks))
  unfolding watch
  watch_kills [] c first q h = ([], refl, rw q (ap some (omega arith)))
  watch_kills (p ∷ ps) c first q h = elim (collect-IsPass p c).idle_or_taken [
    | inl (same, none_now) ↦
        let (ks, es, last) =
          watch_kills ps (collect p c).0 first (same ∙ q) (IsRising-later first p ps h) in
        (ks, rw (none_now) es, last)
    | inr (n, k, taken, now) ↦
        let (more, rest) = IsRising-next first n p ps k h in
        let (ks, es, last) = watch_kills ps (collect p c).0 n taken rest in
        elim (Bool-cases (ltb first n)) [
          | inl lt ↦ (
            (n - first) ∷ ks,
            rw (now ∙ events_more c.prev_oom first n q lt, es) refl,
            last ∙ ap some (omega (arith, more)),
          )
          | inr ge ↦ (
            ks,
            rw (now ∙ events_same c.prev_oom first n q ge) es,
            last ∙ ap some (ground (arith, more, ge)),
          )
        ]
  ]
