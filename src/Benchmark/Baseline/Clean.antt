-- ===== src/Benchmark/Baseline/Clean.antt =====
-- `run_baseline_single_thread` of benchmark/benchmark.cpp over a peer that keeps the promise of the
-- daemon.
use kvstore_lkm.Prelude.{
  ℕ, zero, suc, ◌+◌, ◌≡◌, ◌≤◌, ◌<◌, ◌^◌, refl, ◌∙◌, false, ◌&&◌, none, some, [], arith, ltb, leb,
  if◌then◌else◌,
}
use mathlib.Core.Path.{fun_ext}
use kvstore_lkm.Text.{decimal}
use kvstore_lkm.Hash.View.{Contents, update}
use kvstore_lkm.Daemon.Protocol.{protocol, promised}
use kvstore_lkm.Benchmark.{Peer, in_buffer}
use kvstore_lkm.Benchmark
use kvstore_lkm.Benchmark.Texts.{got, c_string-got, contains-got}
use kvstore_lkm.Benchmark.Promise.{
  KeepsPromise, absent_inserts, found_deletes, kv_insert_lem, kv_get_lem, kv_delete_lem,
}
use kvstore_lkm.Benchmark.Baseline.Runs.{
  value_of_key-IsValue, insert_run, delete_run, get_all_found,
}
use kvstore_lkm.Benchmark.Baseline.{
  value_of_key, Failures, is_mismatch, insert_all, get_all, delete_all, baseline_loops,
}

abbrev pub none_failed : Failures
none_failed = record {
  failed_inserts = 0;
  failed_get_empty = 0;
  failed_get_mismatch = 0;
  failed_deletes = 0;
}

-- The map with the values of the keys from `low` on and below `high`.
abbrev stored : ℕ → ℕ → Contents → Contents
stored low high f q = if leb low q && ltb q high then some (value_of_key q) else f q

stored_none : (low : ℕ) (f : Contents) → stored low low f ≡ f
stored_none low f = fun_ext (λ q. ground arith)

stored_more :
    (high : ℕ) (f : Contents)
    → update (stored 0 high f) high (some (value_of_key high)) ≡ stored 0 (suc high) f
stored_more high f = fun_ext (λ q. ground arith)

stored_less :
    (low high : ℕ) (f : Contents)
    → low < high
    → f low ≡ none
    → update (stored low high f) low none ≡ stored (suc low) high f
stored_less low high f h absent = fun_ext (λ q. ground (arith, absent))

module _ {S : Type 0} {peer : Peer S} {shows : Contents → S → Type 0}
    (keeps : KeepsPromise peer promised shows) (f : Contents) where
  inserts :
      (rounds i high : ℕ) (s : S)
      → i + rounds ≡ high
      → high ≤ 2 ^ 64
      → ((q : ℕ) → q < high → f q ≡ none)
      → shows (stored 0 i f) s
      → ((insert_all peer rounds i 0 s).0 ≡ 0)
        × shows (stored 0 high f) (insert_all peer rounds i 0 s).1
  inserts zero i high s sum few absent shown =
      let same : i ≡ high = omega (arith, sum) in unfold insert_all in (refl, rw same at shown)
  inserts (suc rounds) i high s sum few absent shown =
      let text = value_of_key i in
      let done =
        kv_insert_lem keeps i (omega (arith, sum, few)) (stored 0 i f) s shown text
          (value_of_key-IsValue i) in
      let free : stored 0 i f i ≡ none = ground (arith, absent i (omega (arith, sum))) in
      let after = absent_inserts i text (stored 0 i f) free ∙ stored_more i f in
      let later =
        inserts rounds (suc i) high (Benchmark.kv_insert peer (decimal i) text s).1
          (omega (arith, sum)) few absent (rw after at (done.1)) in
      rw (insert_run peer rounds i s (done.0)) later

  deletes :
      (rounds i high : ℕ) (s : S)
      → i + rounds ≡ high
      → high ≤ 2 ^ 64
      → ((q : ℕ) → q < high → f q ≡ none)
      → shows (stored i high f) s
      → ((delete_all peer rounds i 0 s).0 ≡ 0) × shows f (delete_all peer rounds i 0 s).1
  deletes zero i high s sum few absent shown =
      let same : i ≡ high = omega (arith, sum) in
      let here = rw (same, stored_none high f) at shown in unfold delete_all in (refl, here)
  deletes (suc rounds) i high s sum few absent shown =
      let below : i < high = omega (arith, sum) in
      let done = kv_delete_lem keeps i (omega (arith, sum, few)) (stored i high f) s shown in
      let there : stored i high f i ≡ some (value_of_key i) = ground arith in
      let after =
        found_deletes i [] (value_of_key i) (stored i high f) there
        ∙ stored_less i high f below (absent i below) in
      let later =
        deletes rounds (suc i) high (Benchmark.kv_delete peer (decimal i) s).1 (omega (arith, sum))
          few absent (rw after at (done.1)) in
      rw (delete_run peer rounds i s (done.0)) later

  matches : (i : ℕ) → is_mismatch (got i (value_of_key i)) (value_of_key i) ≡ false
  matches i = rw (contains-got i (value_of_key i)) (ground arith)

  gets :
      (rounds i count : ℕ) (s : S)
      → i + rounds ≤ count
      → count ≤ 2 ^ 64
      → shows (stored 0 count f) s
      → ((get_all peer rounds i (0, 0) s).0 ≡ (0, 0))
        × shows (stored 0 count f) (get_all peer rounds i (0, 0) s).1
  gets zero i count s h few shown = unfold get_all in (refl, shown)
  gets (suc rounds) i count s h few shown =
      let g = stored 0 count f in
      let v = value_of_key i in
      let done = kv_get_lem keeps i (omega (arith, h, few)) g s shown in
      let there : g i ≡ some v = ground (arith, h) in
      let value = value_of_key-IsValue i in
      let next : suc i + rounds ≤ count = omega (arith, h) in
      let out = done.0 ∙ rw (there, protocol) (c_string-got i v value.no_nul value.fits) in
      let later =
        gets rounds (suc i) count (Benchmark.kv_get peer (decimal i) s).1 next few (done.1) in
      rw (get_all_found peer rounds i (0, 0) s (got i v) out refl (matches i)) later

  -- clean
  pub baseline_clean :
      (count : ℕ) (s : S)
      → count ≤ 2 ^ 64
      → ((q : ℕ) → q < count → f q ≡ none)
      → shows f s
      → ((baseline_loops peer count s).0 ≡ none_failed) × shows f (baseline_loops peer count s).1
  baseline_clean count s few absent shown =
      let first = inserts count 0 count s (omega arith) few absent (rw (stored_none 0 f) shown) in
      let s₁ = (insert_all peer count 0 0 s).1 in
      let second = gets count 0 count s₁ (omega arith) few (first.1) in
      let third =
        deletes count 0 count (get_all peer count 0 (0, 0) s₁).1 (omega arith) few absent
          (second.1) in
      unfold baseline_loops in (rw (first.0, second.0, third.0) refl, third.1)
