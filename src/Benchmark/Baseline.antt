-- ===== src/Benchmark/Baseline.antt =====
-- `run_baseline_single_thread` of benchmark/benchmark.cpp.
pub mod Runs
pub mod Clean
pub mod Refused
pub mod Run
use kvstore_lkm.Prelude.{
  ℕ, zero, suc, Bool, not, ◌&&◌, Option, none, some, List, ◌++◌, if◌then◌else◌, codes, text_eq, ℤ,
  is_neg,
}
use kvstore_lkm.Text.{decimal}
use kvstore_lkm.Client.{contains}
use kvstore_lkm.Daemon.Operation.{quoted}
use kvstore_lkm.Daemon.Command.{is_empty}
use kvstore_lkm.Benchmark.{Peer, Net, setup_connection, kv_insert, kv_get, kv_delete}

abbrev pub key_count : ℕ
key_count = 50000

-- The value of a key.
abbrev pub value_of_key : ℕ → List ℕ
value_of_key i = codes "value" ++ decimal i

-- What the benchmark reports.
pub record Failures : Type 0 where
  pub failed_inserts : ℕ
  pub failed_get_empty : ℕ
  pub failed_get_mismatch : ℕ
  pub failed_deletes : ℕ

abbrev counted : ℤ → ℕ → ℕ
counted res failed = if is_neg res then suc failed else failed

-- `out != value`, and the value in quotes is not in it.
abbrev pub is_mismatch : List ℕ → List ℕ → Bool
is_mismatch out value = not (text_eq out value) && not (contains (quoted value) out)

module _ {S : Type 0} (peer : Peer S) where
  -- The loops, over the keys from i on; the first argument counts the rounds that are left.
  unfoldable pub insert_all : ℕ → ℕ → ℕ → S → ℕ × S
  unfolding kv_insert decimal
  insert_all zero i failed s = (failed, s)
  insert_all (suc rounds) i failed s =
      let (res, s') = kv_insert peer (decimal i) (value_of_key i) s in
      insert_all rounds (suc i) (counted res failed) s'

  unfoldable pub get_all : ℕ → ℕ → ℕ × ℕ → S → (ℕ × ℕ) × S
  unfolding kv_get decimal text_eq contains
  get_all zero i failed s = (failed, s)
  get_all (suc rounds) i (empty, mismatch) s =
      let (out, s') = kv_get peer (decimal i) s in
      get_all rounds (suc i)
        (if is_empty out
          then (suc empty, mismatch)
          else if is_mismatch out (value_of_key i)
          then (empty, suc mismatch)
          else (empty, mismatch))
        s'

  unfoldable pub delete_all : ℕ → ℕ → ℕ → S → ℕ × S
  unfolding kv_delete decimal
  delete_all zero i failed s = (failed, s)
  delete_all (suc rounds) i failed s =
      let (res, s') = kv_delete peer (decimal i) s in
      delete_all rounds (suc i) (counted res failed) s'

  unfoldable pub baseline_loops : ℕ → S → Failures × S
  unfolding insert_all get_all delete_all
  baseline_loops count s =
      let (failed_inserts, s₁) = insert_all count 0 0 s in
      let (failed_gets, s₂) = get_all count 0 (0, 0) s₁ in
      let (failed_deletes, s₃) = delete_all count 0 0 s₂ in
      (
        record {
          failed_inserts = failed_inserts;
          failed_get_empty = failed_gets.0;
          failed_get_mismatch = failed_gets.1;
          failed_deletes = failed_deletes;
        },
        s₃,
      )

  -- `none`: there is no connection and no report.
  unfoldable pub run_baseline_single_thread : Net → List ℕ → List ℕ → S → Option Failures × S
  run_baseline_single_thread net username password s =
      let (sock, open_descriptors, s') = setup_connection peer net username password s in
      if is_neg sock
      then (none, s')
      else let (failures, s'') = baseline_loops key_count s' in (some failures, s'')
