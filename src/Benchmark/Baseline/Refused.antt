-- ===== src/Benchmark/Baseline/Refused.antt =====
-- `run_baseline_single_thread` of benchmark/benchmark.cpp over a connection that the daemon has not
-- authenticated.
use kvstore_lkm.Prelude.{
  ℕ, zero, suc, ◌+◌, ◌≡◌, ◌≤◌, ◌^◌, refl, ◌∙◌, true, List, arith, take, text_eq,
}
use kvstore_lkm.Text.{c_string, decimal}
use kvstore_lkm.Client.{begins, contains}
use kvstore_lkm.Benchmark.{Peer, in_buffer}
use kvstore_lkm.Benchmark
use kvstore_lkm.Benchmark.Promise.{KeepsPromise, insert_answer, get_answer, delete_answer}
use kvstore_lkm.Benchmark.Baseline.{
  value_of_key, Failures, is_mismatch, insert_all, get_all, delete_all, baseline_loops,
}
use kvstore_lkm.Benchmark.Baseline.Runs.{
  value_of_key-IsValue, insert_run, delete_run, get_all_mismatch,
}
use kvstore_lkm.Daemon.Protocol.{Order}
use kvstore_lkm.Daemon.Protocol.Refused.{not_authenticated}

-- The same answer to every command, and nothing changes.
abbrev pub refuse : Order → Unit {0} → List ℕ × Unit {0}
refuse o a = (not_authenticated, a)

buffered : in_buffer 1023 not_authenticated ≡ not_authenticated
unfolding c_string take
buffered = refl

mismatches : (i : ℕ) → is_mismatch not_authenticated (value_of_key i) ≡ true
unfolding text_eq contains begins
mismatches i = refl

-- Every get is a mismatch, and nothing else has failed.
abbrev pub only_mismatches : ℕ → Failures
only_mismatches count = record {
  failed_inserts = 0;
  failed_get_empty = 0;
  failed_get_mismatch = count;
  failed_deletes = 0;
}

module _ {S : Type 0} {peer : Peer S} {shows : Unit {0} → S → Type 0}
    (keeps : KeepsPromise peer refuse shows) where
  inserts :
      (rounds i : ℕ) (s : S)
      → i + rounds ≤ 2 ^ 64
      → shows tt s
      → ((insert_all peer rounds i 0 s).0 ≡ 0) × shows tt (insert_all peer rounds i 0 s).1
  inserts zero i s few shown = unfold insert_all in (refl, shown)
  inserts (suc rounds) i s few shown =
      let text = value_of_key i in
      let done =
        insert_answer keeps i (omega (arith, few)) tt s shown text (value_of_key-IsValue i) in
      rw (insert_run peer rounds i s (done.0)) (
        inserts rounds (suc i) (Benchmark.kv_insert peer (decimal i) text s).1 (omega (arith, few))
          (done.1))

  deletes :
      (rounds i : ℕ) (s : S)
      → i + rounds ≤ 2 ^ 64
      → shows tt s
      → ((delete_all peer rounds i 0 s).0 ≡ 0) × shows tt (delete_all peer rounds i 0 s).1
  deletes zero i s few shown = unfold delete_all in (refl, shown)
  deletes (suc rounds) i s few shown =
      let done = delete_answer keeps i (omega (arith, few)) tt s shown in
      rw (delete_run peer rounds i s (done.0)) (
        deletes rounds (suc i) (Benchmark.kv_delete peer (decimal i) s).1 (omega (arith, few))
          (done.1))

  gets :
      (rounds i mismatch total : ℕ) (s : S)
      → i + rounds ≤ 2 ^ 64
      → mismatch + rounds ≡ total
      → shows tt s
      → ((get_all peer rounds i (0, mismatch) s).0 ≡ (0, total))
        × shows tt (get_all peer rounds i (0, mismatch) s).1
  gets zero i mismatch total s few sum shown =
      let same : mismatch ≡ total = omega (arith, sum) in unfold get_all in (rw same refl, shown)
  gets (suc rounds) i mismatch total s few sum shown =
      let done = get_answer keeps i (omega (arith, few)) tt s shown in
      let out = done.0 ∙ buffered in
      rw (get_all_mismatch peer rounds i (0, mismatch) s not_authenticated out refl (mismatches i))
        (gets rounds (suc i) (suc mismatch) total (Benchmark.kv_get peer (decimal i) s).1
          (omega (arith, few)) (omega (arith, sum)) (done.1))

  pub baseline_refused :
      (count : ℕ) (s : S)
      → count ≤ 2 ^ 64
      → shows tt s
      → ((baseline_loops peer count s).0 ≡ only_mismatches count)
        × shows tt (baseline_loops peer count s).1
  baseline_refused count s few shown =
      let first = inserts count 0 s (omega (arith, few)) shown in
      let s₁ = (insert_all peer count 0 0 s).1 in
      let second = gets count 0 0 count s₁ (omega (arith, few)) (omega arith) (first.1) in
      let third =
        deletes count 0 (get_all peer count 0 (0, 0) s₁).1 (omega (arith, few)) (second.1) in
      unfold baseline_loops in (rw (first.0, second.0, third.0) refl, third.1)
