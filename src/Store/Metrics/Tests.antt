-- ===== src/Store/Metrics/Tests.antt =====
-- One sample in an empty store, with whole numbers for samples.
use jamsys.Prelude.{nat_is_eq, ℕ, ◌+◌, ◌/◌, true, some, [], ltb, arith}
use jamsys.Store.Metrics.{Samples, Metrics, push}
use jamsys.Store.Metrics.Laws.{IsBounded, push-IsBounded}

instance abbrev whole : Samples ℕ
whole = record {
  is_finite = λ v. true;
  narrow = λ v. v;
  widen = λ v. v;
  zero = 0;
  nan = 0;
  add = λ v w. v + w;
  div = λ v n. v / n;
  lt = ltb;
}

abbrev start : Metrics ℕ ℕ
start = record {
  ids = [];
  pending = [];
  last_flush_ms = 0;
  live = [];
  agg = [];
  agg_bucket = 0;
  live_window_ms = 1_800_000;
}

push-IsBounded_example : IsBounded (push (some 1) 25_000 3 40 start)
push-IsBounded_example =
    push-IsBounded (some 1) 25_000 3 40 start (omega arith)
      (record { queue = omega arith; rings = tt })
