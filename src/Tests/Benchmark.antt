-- ===== src/Tests/Benchmark.antt =====
-- benchmark/benchmark.cpp against the daemon at small inputs.
use kvstore_lkm.Prelude.{
  ℕ, List, ◌≡◌, refl, true, false, none, some, [], ◌∷◌, ◌*◌, arith, codes, replicate, get_or, set,
}
use kvstore_lkm.Hash.View.{contents}
use kvstore_lkm.Daemon.Command.{Server}
use kvstore_lkm.Daemon.Auth.{authenticate}
use kvstore_lkm.Client.Connection.{IsLogin}
use kvstore_lkm.Benchmark.{Net, good, check_value}
use kvstore_lkm.Benchmark.Texts.{got}
use kvstore_lkm.Benchmark.Check.{count_text, bounded, check_value_lem}
use kvstore_lkm.Benchmark.Serving.{daemon, ServerShows}
use kvstore_lkm.Benchmark.Login.{IsConnected}
use kvstore_lkm.Benchmark.Baseline.{key_count, run_baseline_single_thread}
use kvstore_lkm.Benchmark.Baseline.Clean.{none_failed}
use kvstore_lkm.Benchmark.Baseline.Refused.{only_mismatches}
use kvstore_lkm.Benchmark.Baseline.Run.{run_baseline_clean, run_baseline_refused}
use kvstore_lkm.Daemon.Connections.{Service}
use kvstore_lkm.Benchmark.Connections.{on_connection, Shows}
use kvstore_lkm.Benchmark.Concurrent.{run_concurrent_read_write}
use kvstore_lkm.Benchmark.Concurrent.Run.{ReportsClean, run_concurrent_clean}
use kvstore_lkm.Benchmark.Latency.{run_latency_bench_single_core, worker}
use kvstore_lkm.Benchmark.Latency.Leaves.{left_behind}
use kvstore_lkm.Benchmark.Latency.Run.{single_core_leaves, worker_leaves}
use kvstore_lkm.Benchmark.Menu.{
  baseline, concurrent, latency_single, latency_multi, invalid_id, exited, throw, benches,
  line_asks, main,
}
use kvstore_lkm.Benchmark.Menu.Ends.{Wish, list, run_all, run, main_ends}
use kvstore_lkm.Text.{decimal, digits_of}
use kvstore_lkm.Tests.World.{
  low_bits, empty, empty-IsValid, empty-IsShort, empty_lacks, calm-IsLucky, setting, open_setting,
  open_accepts, server,
}

abbrev net : Net
net = record { socket = some 4; address_ok = true; connect_ok = true }

net-IsConnected : IsConnected net 4
net-IsConnected = record { socket = refl; address = refl; connected = refl }

ann-IsLogin : IsLogin (codes "ann") (codes "pw")
ann-IsLogin = record {
  user = (ground arith, ground arith);
  pass = (ground arith, ground arith);
  fits = omega arith;
}

abbrev fresh_server : Server
fresh_server = record { kernel = empty; file = none; authenticated = false }

run_baseline_clean_example :
    let r =
      run_baseline_single_thread
        (daemon (λ i. open_setting))
        net
        (codes "ann")
        (codes "pw")
        (0, fresh_server) in
    (r.0 ≡ some none_failed) × ServerShows 5 (contents empty) r.1
run_baseline_clean_example =
    run_baseline_clean (λ i. open_setting) net 4 (codes "ann") (codes "pw") 0 fresh_server
      net-IsConnected ann-IsLogin (λ i. calm-IsLucky) empty-IsValid empty-IsShort
      (λ q h. empty_lacks q) open_accepts

ann_refused : authenticate setting.pam (codes "ann") (codes "pw") ≡ false
unfolding authenticate
ann_refused = refl

run_baseline_refused_example :
    let r =
      run_baseline_single_thread
        (daemon (λ i. setting))
        net
        (codes "ann")
        (codes "pw")
        (0, server false) in
    (r.0 ≡ some (only_mismatches key_count)) × (r.1.1 ≡ server false)
run_baseline_refused_example =
    run_baseline_refused (λ i. setting) net 4 (codes "ann") (codes "pw") 0 (server false)
      net-IsConnected ann-IsLogin refl ann_refused

check_value_lem_example : check_value (got 0 (count_text 17)) ≡ bounded 17 (good 17)
check_value_lem_example = check_value_lem 17 (omega arith)

-- Eleven connections that have not authenticated.
abbrev eleven : Service
eleven = record { kernel = empty; file = none; authenticated = replicate 11 false }

-- The writer connects and writes twice, two readers connect, and one of them reads twice; a third
-- one connects after the stop.
abbrev early : List ℕ
early = 3 ∷ 0 ∷ 0 ∷ 3 ∷ 7 ∷ 0 ∷ 3 ∷ []

run_concurrent_clean_example : ReportsClean (Shows 5) (contents empty) early (
    run_concurrent_read_write
      (on_connection (λ i. open_setting))
      (λ c. net)
      (codes "ann")
      (codes "pw")
      early
      (7 ∷ 5 ∷ [])
      (0, eleven))
unfolding replicate get_or set
run_concurrent_clean_example =
    run_concurrent_clean (λ i. open_setting) (λ c. net) (λ c. 3) (codes "ann") (codes "pw") early
      (7 ∷ 5 ∷ []) 0 eleven (λ c. net-IsConnected) ann-IsLogin (λ i. calm-IsLucky)
      (λ i. open_accepts) empty-IsValid empty-IsShort (empty_lacks 0) (omega arith) (omega arith)

single_core_leaves_example : ServerShows 5 (left_behind 0 (contents empty)) (
    run_latency_bench_single_core
      (daemon (λ i. open_setting))
      net
      (codes "ann")
      (codes "pw")
      (0, fresh_server))
single_core_leaves_example =
    single_core_leaves (λ i. open_setting) net 4 (codes "ann") (codes "pw") 0 fresh_server
      net-IsConnected ann-IsLogin (λ i. calm-IsLucky) empty-IsValid empty-IsShort open_accepts
      ((λ i h. empty_lacks _), (λ i h. empty_lacks _))

worker_leaves_example :
    ServerShows 5
      (left_behind (2 * 1000000) (contents empty))
      (worker (daemon (λ i. open_setting)) net (codes "ann") (codes "pw") 2 true (0, fresh_server))
worker_leaves_example =
    worker_leaves (λ i. open_setting) net 4 (codes "ann") (codes "pw") 0 fresh_server
      net-IsConnected ann-IsLogin (λ i. calm-IsLucky) empty-IsValid empty-IsShort open_accepts 2
      (omega arith) ((λ i h. empty_lacks _), (λ i h. empty_lacks _))

-- What the user types.
abbrev wishes : List Wish
wishes = list ∷ run 3 ∷ run_all ∷ run 9 ∷ []

abbrev typed_wishes : List (List ℕ)
typed_wishes = codes "list" ∷ codes "run 3" ∷ codes "run all" ∷ codes "run 9" ∷ codes "exit" ∷ []

main_ends_example : main 5 ([] ∷ codes "ann" ∷ [] ∷ typed_wishes) ≡ (
  record { daemon_ip = codes "127.0.0.1"; username = codes "ann"; password = codes "vboxuser" },
  (
    latency_single ∷ baseline ∷ concurrent ∷ latency_single ∷ latency_multi ∷ invalid_id ∷ [],
    exited,
  ),
)
unfolding decimal digits_of
main_ends_example =
    main_ends [] (codes "ann") [] wishes true 5 (tt, (omega arith, (tt, (omega arith, tt))))
      (omega arith)

-- `run` with no number, or with one that is no `int`, ends the program.
run_throws :
    (line_asks (codes "run baseline") ≡ throw)
    × (line_asks (codes "run 2147483648") ≡ throw)
    × (line_asks (codes "run -1") ≡ benches (invalid_id ∷ []))
unfolding line_asks
run_throws = (refl, refl, refl)
