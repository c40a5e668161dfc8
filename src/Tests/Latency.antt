-- ===== src/Tests/Latency.antt =====
-- The 8 threads of the latency benchmark against an empty table, one after another.
use kvstore_lkm.Prelude.{
  ℕ, suc, ◌≡◌, ◌<◌, refl, true, none, Bool, List, [], get_or, false, arith, zero, replicate,
}
use kvstore_lkm.Hash.View.{contents}
use kvstore_lkm.Daemon.Connections.{Service, handle_events}
use kvstore_lkm.Daemon.Connections.Shared.{events_of, SharesMap}
use kvstore_lkm.Daemon.Connections.Isolated.{heard, AgreeOn}
use kvstore_lkm.Benchmark.Latency.Leaves.{left_behind}
use kvstore_lkm.Benchmark.Latency.Threads.{base_key, thread_asks}
use kvstore_lkm.Benchmark.Latency.Threads.Apart.{in_keys, outside}
use kvstore_lkm.Benchmark.Latency.Threads.Leave.{threads_leave}
use kvstore_lkm.Benchmark.Latency.Threads.Turns.{in_turn, in_turn-IsMerge}
use kvstore_lkm.Tests.World.{
  low_bits, empty, empty-IsValid, empty-IsShort, empty_lacks, calm-IsLucky, setting,
}

abbrev eight : List Bool
eight = replicate 8 true

logged : (n c : ℕ) → c < n → get_or (replicate n true) c false ≡ true
unfolding get_or replicate
logged zero c h = absurd (omega (arith, h))
logged (suc n) zero h = refl
logged (suc n) (suc c) h = logged n c (omega (arith, h))

abbrev eight_threads : Service
eight_threads = record { kernel = empty; file = none; authenticated = eight }

eight_threads-SharesMap : SharesMap 5 eight (contents empty) eight_threads
eight_threads-SharesMap = record {
  chains = replicate 2 [];
  valid = empty-IsValid;
  reads = λ q. refl;
  short = empty-IsShort;
  same = refl;
}

threads_leave_example :
    ((c : ℕ)
      → c < 8
      → (heard c
            (in_turn 8)
            (handle_events (events_of (λ i. setting) 0 (in_turn 8)) eight_threads).0
          ≡ (handle_events (events_of (λ i. setting) 0 (thread_asks c)) eight_threads).0)
        × AgreeOn
            (in_keys c)
            (contents
              (handle_events (events_of (λ i. setting) 0 (in_turn 8)) eight_threads).1.kernel)
            (left_behind (base_key c) (contents empty)))
    × AgreeOn
        (outside 8)
        (contents (handle_events (events_of (λ i. setting) 0 (in_turn 8)) eight_threads).1.kernel)
        (contents empty)
threads_leave_example =
    threads_leave 5 eight (λ i. setting) eight_threads (in_turn 8) (λ j. calm-IsLucky) (logged 8)
      eight_threads-SharesMap (λ c h. ((λ i h'. empty_lacks _), (λ i h'. empty_lacks _)))
      in_turn-IsMerge
