-- ===== src/Benchmark/Concurrent/Clean.antt =====
-- A round of the writer and of a reader of `run_concurrent_read_write` of benchmark/benchmark.cpp,
-- over a peer that keeps the promise of the daemon.
use kvstore_lkm.Prelude.{ℕ, ◌+◌, ◌^◌, ◌≡◌, ◌<◌, refl, ◌∙◌, some, arith, codes}
use mathlib.Core.Path.{fun_ext, subst}
use kvstore_lkm.Text.{decimal, NoNul-append, digits_of}
use kvstore_lkm.Hash.View.{Contents, update}
use kvstore_lkm.Daemon.Protocol.{promised}
use kvstore_lkm.Daemon.Protocol.Session.{decimal-NoNul}
use kvstore_lkm.Benchmark.{Peer, in_buffer, good, check_value}
use kvstore_lkm.Benchmark
use kvstore_lkm.Benchmark.Texts.{
  length-decimal, got, c_string-got, NoNewline-append, decimal-NoNewline,
}
use kvstore_lkm.Benchmark.Promise.{KeepsPromise, IsValue, kv_get_lem, kv_update_lem}
use kvstore_lkm.Benchmark.Check.{count_text, check_value_lem}
use kvstore_lkm.Benchmark.Concurrent.{hot_key, Counters, writer_round, reader_round}

pub count_text-IsValue : (n : ℕ) → IsValue (count_text n)
count_text-IsValue n = record {
  whole = tt;
  no_nul = NoNul-append (codes "count:") (decimal n) (ground arith) (decimal-NoNul n);
  no_newline = NoNewline-append (codes "count:") (decimal n) (ground arith) (decimal-NoNewline n);
  fits = omega (arith, length-decimal n);
}

pub zero_key : decimal 0 ≡ hot_key
unfolding decimal digits_of
zero_key = refl

-- The map with the value of a count at the key 0.
abbrev pub with_count : ℕ → Contents → Contents
with_count n f = update f 0 (some (count_text n))

module _ {S : Type 0} {peer : Peer S} {shows : Contents → S → Type 0}
    (keeps : KeepsPromise peer promised shows) (f : Contents) where
  overwritten : (m n : ℕ) → update (with_count m f) 0 (some (count_text n)) ≡ with_count n f
  overwritten m n = fun_ext (λ q. ground arith)

  pub writer_lem :
      (c : Counters) (m : ℕ) (s : S)
      → c.count < 2 ^ 63
      → shows (with_count m f) s
      → shows (with_count c.count f) (writer_round peer c s).1
  writer_lem c m s small shown =
      let text = count_text c.count in
      let done =
        kv_update_lem keeps 0 (omega arith) (with_count m f) s shown text
          (count_text-IsValue c.count) in
      let moved = rw (zero_key, overwritten m c.count) at (done.1) in unfold writer_round in moved

  pub reader_lem :
      (c : Counters) (m : ℕ) (s : S)
      → m < 2 ^ 63
      → shows (with_count m f) s
      → (s' : S) × (reader_round peer c s ≡ some (record c { reads = c.reads + 1 }, s'))
        × shows (with_count m f) s'
  reader_lem c m s small shown =
      let done = kv_get_lem keeps 0 (omega arith) (with_count m f) s shown in
      let value = count_text-IsValue m in
      let out = done.0 ∙ c_string-got 0 (count_text m) value.no_nul value.fits in
      let here =
        subst (λ key. (Benchmark.kv_get peer key s).0 ≡ got 0 (count_text m)) zero_key out in
      let judged_good : check_value (got 0 (count_text m)) ≡ good m =
        check_value_lem m (omega (arith, small)) ∙ ground (arith, small) in
      (
        (Benchmark.kv_get peer hot_key s).1,
        unfold reader_round in rw (here, reader_round, judged_good),
        rw zero_key at (done.1),
      )
