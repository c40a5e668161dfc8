-- ===== src/Benchmark/Latency/Threads/Leave.antt =====
-- What the threads of `run_latency_bench_multi_thread` of benchmark/benchmark.cpp leave in the store
-- of the daemon.
use kvstore_lkm.Prelude.{ℕ, ◌≡◌, ◌<◌, refl, ◌∙◌, Bool, true, false, List, [], get_or, arith}
use mathlib.Core.Path.{subst}
use kvstore_lkm.Hash.Table.{Hashing}
use kvstore_lkm.Hash.View.{contents}
use kvstore_lkm.Device.RoundTrip.{IsLucky}
use kvstore_lkm.Daemon.Command.{Setting}
use kvstore_lkm.Daemon.Connections.{Service, handle_events}
use kvstore_lkm.Daemon.Connections.Shared.{Asked, events_of, SharesMap}
use kvstore_lkm.Daemon.Connections.Isolated.{own, heard, AgreeOn, connections-Isolated}
use kvstore_lkm.Benchmark.Latency.Leaves.{LacksAll, left_behind, latency_loops_lem}
use kvstore_lkm.Benchmark.Latency.Threads.{base_key, thread_asks, loops_run}
use kvstore_lkm.Benchmark.Connections.{connection-KeepsPromise}
use kvstore_lkm.Benchmark.Latency.Threads.Ours.{merge_ours}
use kvstore_lkm.Benchmark.Latency.Threads.Apart.{
  in_keys, outside, IsMerge, AllOurs-AllFit, AllOurs-KeysApart, outside-KeysApart,
}

module _ ⦃hashing : Hashing⦄ (others : ℕ) (logged_in : List Bool) where
  -- A thread alone.
  alone_leaves :
      (settings : ℕ → Setting) (c : ℕ) (s : Service)
      → c < 8
      → ((j : ℕ) → IsLucky (settings j).env)
      → get_or logged_in c false ≡ true
      → SharesMap others logged_in (contents s.kernel) s
      → LacksAll (base_key c) (contents s.kernel)
      → SharesMap others logged_in
          (left_behind (base_key c) (contents s.kernel))
          (handle_events (events_of settings 0 (thread_asks c)) s).1
  alone_leaves settings c s few lucky logged shown absent =
      let left =
        latency_loops_lem (connection-KeepsPromise others logged_in settings c lucky logged)
          (base_key c) (omega (arith, few)) (contents s.kernel) (0, s) (absent.0) (absent.1)
          shown in
      subst (λ t. SharesMap others logged_in (left_behind (base_key c) (contents s.kernel)) t)
        (loops_run settings c 0 s) left

  -- The 8 threads of the latency benchmark: on a valid table of values shorter than 64 bytes that
  -- has none of their keys, over 8 connections of the daemon that have authenticated, with calls of
  -- the device that succeed, in whatever order the daemon gets the commands of the loops of the
  -- threads, those of each thread in its own order and no others, the table has then at the keys of
  -- each thread what that thread alone leaves there, its warm-up keys and no more, and at all other
  -- keys what it had before; each thread gets the responses that it gets alone.
  pub threads_leave :
      (settings : ℕ → Setting) (s : Service) (asks : List Asked)
      → ((j : ℕ) → IsLucky (settings j).env)
      → ((c : ℕ) → c < 8 → get_or logged_in c false ≡ true)
      → SharesMap others logged_in (contents s.kernel) s
      → ((c : ℕ) → c < 8 → LacksAll (base_key c) (contents s.kernel))
      → IsMerge asks
      → ((c : ℕ)
          → c < 8
          → (heard c asks (handle_events (events_of settings 0 asks) s).0
              ≡ (handle_events (events_of settings 0 (thread_asks c)) s).0)
            × AgreeOn
                (in_keys c)
                (contents (handle_events (events_of settings 0 asks) s).1.kernel)
                (left_behind (base_key c) (contents s.kernel)))
        × AgreeOn
            (outside 8)
            (contents (handle_events (events_of settings 0 asks) s).1.kernel)
            (contents s.kernel)
  threads_leave settings s asks lucky logged shown absent merge =
      let ours = merge_ours asks merge in
      let fit = AllOurs-AllFit asks ours in
      (
        (λ c few.
            let isolated =
              connections-Isolated settings settings asks logged_in s c (in_keys c) shown lucky
                lucky fit (AllOurs-KeysApart c asks ours) in
            let alone = alone_leaves settings c s few lucky (logged c few) shown (absent c few) in
            let thread =
              subst
                (λ xs.
                  (heard c asks (handle_events (events_of settings 0 asks) s).0
                    ≡ (handle_events (events_of settings 0 xs) s).0)
                  × AgreeOn (in_keys c)
                      (contents (handle_events (events_of settings 0 asks) s).1.kernel)
                      (contents (handle_events (events_of settings 0 xs) s).1.kernel))
                (merge.ours c few) isolated in
            (thread.0, λ q e. thread.1 q e ∙ alone.reads q)),
        (let isolated =
              connections-Isolated settings settings asks logged_in s 8 (outside 8) shown lucky
                lucky fit (outside-KeysApart asks ours) in
            let none_of : own 8 asks ≡ [] = merge.others 8 (omega arith) in
            let kept =
              subst
                (λ xs.
                  AgreeOn (outside 8)
                    (contents (handle_events (events_of settings 0 asks) s).1.kernel)
                    (contents (handle_events (events_of settings 0 xs) s).1.kernel))
                none_of isolated.1 in
            λ q e. kept q e ∙ (unfold handle_events in refl)),
      )
