-- ===== src/Benchmark/Menu.antt =====
-- `main` and `run_bench` of benchmark/benchmark.cpp, over the lines that the user types: which
-- benchmarks are run, and how the program ends.
pub mod Ends
use kvstore_lkm.Prelude.{
  ℕ, zero, suc, ◌+◌, ◌^◌, not, Option, none, some, List, [], ◌∷◌, ◌++◌, ltb, leb, if◌then◌else◌,
  codes, text_eq, drop, ℤ, pos, neg, eq_nat,
}
use kvstore_lkm.Daemon.Words.{skip_spaces}
use kvstore_lkm.Daemon.Key.{starts_with_digit, read_digits, read_sign}
use kvstore_lkm.Client.{begins, next_line}

-- `std::stoi`, in base 10; `none` stands for an exception: no digits, or a number that is no `int`.
unfoldable pub stoi : List ℕ → Option ℤ
unfolding skip_spaces read_sign read_digits
stoi s =
    let (minus, t) = read_sign (skip_spaces s) in
    let (n, rest) = read_digits 0 t in
    if not (starts_with_digit t)
    then none
    else if minus
    then (if leb n (2 ^ 31) then some (neg n) else none)
    else if ltb n (2 ^ 31)
    then some (pos n)
    else none

-- The benchmark that is run, or the report of an invalid id.
pub data Bench : Type 0 where
  baseline concurrent latency_single latency_multi invalid_id : Bench

unfoldable pub run_bench : ℤ → Bench
run_bench id =
    if eq_nat id 1
    then baseline
    else if eq_nat id 2
    then concurrent
    else if eq_nat id 3
    then latency_single
    else if eq_nat id 4
    then latency_multi
    else invalid_id

pub data Ending : Type 0 where
  running exited thrown : Ending

-- What a line of the menu does: leave, go on after these benchmarks, or throw.
pub data Asked : Type 0 where
  leave throw : Asked
  benches : List Bench → Asked

abbrev pub run_id : Option ℤ → Asked
run_id none = throw
run_id (some id) = benches (run_bench id ∷ [])

unfoldable pub line_asks : List ℕ → Asked
unfolding text_eq begins stoi run_bench drop
line_asks line =
    if text_eq line (codes "exit")
    then leave
    else if text_eq line (codes "list")
    then benches []
    else if text_eq line (codes "run all")
    then benches
        (run_bench (pos 1) ∷ run_bench (pos 2) ∷ run_bench (pos 3) ∷ run_bench (pos 4) ∷ [])
    else if begins (codes "run ") line
    then run_id (stoi (drop 4 line))
    else benches []

-- The benchmarks run in the first `rounds` rounds of the menu, and whether it has ended.
unfoldable pub menu : ℕ → List (List ℕ) → List Bench × Ending
menu zero lines = ([], running)
menu (suc rounds) lines =
    let (line, rest) = next_line lines in
    let (later, ending) = menu rounds rest in
    elim (line_asks line) [
      | leave ↦ ([], exited)
      | throw ↦ ([], thrown)
      | benches now ↦ (now ++ later, ending)
    ]

pub record ConnectionData : Type 0 where
  pub daemon_ip : List ℕ
  pub username : List ℕ
  pub password : List ℕ

abbrev pub or_default : List ℕ → List ℕ → List ℕ
or_default default [] = default
or_default default (c ∷ s) = c ∷ s

abbrev pub connection : List ℕ → List ℕ → List ℕ → ConnectionData
connection ip username password = record {
  daemon_ip = or_default (codes "127.0.0.1") ip;
  username = or_default (codes "vboxuser") username;
  password = or_default (codes "vboxuser") password;
}

-- The connection data that every benchmark gets, the benchmarks, and the ending.
unfoldable pub main : ℕ → List (List ℕ) → ConnectionData × (List Bench × Ending)
main rounds lines =
    let (ip, lines₁) = next_line lines in
    let (username, lines₂) = next_line lines₁ in
    let (password, lines₃) = next_line lines₂ in
    (connection ip username password, menu rounds lines₃)
