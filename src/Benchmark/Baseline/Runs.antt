-- ===== src/Benchmark/Baseline/Runs.antt =====
-- One round of each loop of `run_baseline_single_thread` of benchmark/benchmark.cpp.
use kvstore_lkm.Prelude.{ℕ, suc, ◌≡◌, true, false, List, arith, codes, pos}
use kvstore_lkm.Text.{decimal, NoNul-append}
use kvstore_lkm.Daemon.Command.{is_empty}
use kvstore_lkm.Daemon.Protocol.Session.{decimal-NoNul}
use kvstore_lkm.Benchmark.{Peer, in_buffer}
use kvstore_lkm.Benchmark
use kvstore_lkm.Benchmark.Texts.{length-decimal, NoNewline-append, decimal-NoNewline}
use kvstore_lkm.Benchmark.Promise.{IsValue}
use kvstore_lkm.Benchmark.Baseline.{value_of_key, is_mismatch, insert_all, get_all, delete_all}

pub value_of_key-IsValue : (i : ℕ) → IsValue (value_of_key i)
value_of_key-IsValue i = record {
  whole = tt;
  no_nul = NoNul-append (codes "value") (decimal i) (ground arith) (decimal-NoNul i);
  no_newline = NoNewline-append (codes "value") (decimal i) (ground arith) (decimal-NoNewline i);
  fits = omega (arith, length-decimal i);
}

module _ {S : Type 0} (peer : Peer S) (rounds i : ℕ) where
  pub insert_run :
      (s : S)
      → (Benchmark.kv_insert peer (decimal i) (value_of_key i) s).0 ≡ pos 0
      → insert_all peer (suc rounds) i 0 s
        ≡ insert_all peer rounds
            (suc i)
            0
            (Benchmark.kv_insert peer (decimal i) (value_of_key i) s).1
  insert_run s e = unfold insert_all in rw e

  pub delete_run :
      (s : S)
      → (Benchmark.kv_delete peer (decimal i) s).0 ≡ pos 0
      → delete_all peer (suc rounds) i 0 s
        ≡ delete_all peer rounds (suc i) 0 (Benchmark.kv_delete peer (decimal i) s).1
  delete_run s e = unfold delete_all in rw e

  module _ (failed : ℕ × ℕ) (s : S) (out : List ℕ)
      (answer : (Benchmark.kv_get peer (decimal i) s).0 ≡ out) (full : is_empty out ≡ false) where
    pub get_all_found :
        is_mismatch out (value_of_key i) ≡ false
        → get_all peer (suc rounds) i failed s
          ≡ get_all peer rounds (suc i) failed (Benchmark.kv_get peer (decimal i) s).1
    get_all_found found = unfold get_all in rw (answer, full, found)

    pub get_all_mismatch :
        is_mismatch out (value_of_key i) ≡ true
        → get_all peer (suc rounds) i failed s
          ≡ get_all peer rounds
              (suc i)
              (failed.0, suc failed.1)
              (Benchmark.kv_get peer (decimal i) s).1
    get_all_mismatch found = unfold get_all in rw (answer, full, found)
