-- ===== src/Benchmark/Menu/Ends.antt =====
-- Which benchmarks the menu of benchmark/benchmark.cpp runs, and that it ends by `exit` alone.
use kvstore_lkm.Prelude.{
  ℕ, zero, suc, ◌<◌, ◌^◌, ◌≡◌, refl, Bool, true, false, some, List, [], ◌∷◌, ◌++◌, arith, ltb,
  if◌then◌else◌, codes, length, text_eq, drop, pos,
}
use mathlib.Core.List.{map}
use kvstore_lkm.Text.{decimal}
use kvstore_lkm.Daemon.Key.{starts_with_digit}
use kvstore_lkm.Daemon.Key.Parse.{decimal_starts, read_decimal, no_sign}
use kvstore_lkm.Client.{begins, next_line}
use kvstore_lkm.Benchmark.Menu.{
  stoi, Bench, baseline, concurrent, latency_single, latency_multi, invalid_id, run_bench, Ending,
  running, exited, benches, run_id, line_asks, menu, connection, main,
}

-- What a user may want of the menu, and the line for it.
pub data Wish : Type 0 where
  list run_all : Wish
  run : ℕ → Wish

abbrev pub line_for : Wish → List ℕ
line_for list = codes "list"
line_for run_all = codes "run all"
line_for (run id) = codes "run " ++ decimal id

-- The id is an `int`.
abbrev pub IsInt : Wish → Type 0
IsInt list = Unit
IsInt run_all = Unit
IsInt (run id) = id < 2 ^ 31

abbrev pub AllInts : List Wish → Type 0
AllInts [] = Unit
AllInts (w ∷ wishes) = IsInt w × AllInts wishes

-- The benchmarks by their number.
abbrev bench : ℕ → Bench
bench zero = invalid_id
bench (suc zero) = baseline
bench (suc (suc zero)) = concurrent
bench (suc (suc (suc zero))) = latency_single
bench (suc (suc (suc (suc zero)))) = latency_multi
bench (suc (suc (suc (suc (suc n))))) = invalid_id

abbrev wanted : Wish → List Bench
wanted list = []
wanted run_all = baseline ∷ concurrent ∷ latency_single ∷ latency_multi ∷ []
wanted (run id) = bench id ∷ []

abbrev pub all_wanted : List Wish → List Bench
all_wanted [] = []
all_wanted (w ∷ wishes) = wanted w ++ all_wanted wishes

stoi-decimal : (n : ℕ) → n < 2 ^ 31 → stoi (decimal n) ≡ some (pos n)
stoi-decimal n h =
    let fits : ltb n (2 ^ 31) ≡ true = ground arith in
    let big : n < 2 ^ 64 = omega (arith, h) in
    unfold stoi in
    rw (no_sign (decimal n) (decimal_starts n), read_decimal n big, decimal_starts n, fits)

run_bench_lem : (n : ℕ) → run_bench (pos n) ≡ bench n
unfolding run_bench
run_bench_lem zero = refl
run_bench_lem (suc zero) = refl
run_bench_lem (suc (suc zero)) = refl
run_bench_lem (suc (suc (suc zero))) = refl
run_bench_lem (suc (suc (suc (suc zero)))) = refl
run_bench_lem (suc (suc (suc (suc (suc n))))) = ground arith

-- A decimal number is not the word `all`.
no_word_all : (s : List ℕ) → starts_with_digit s ≡ true → text_eq s (codes "all") ≡ false
no_word_all [] h = cc
no_word_all (c ∷ s) h = unfold text_eq in ground arith

run_asks :
    (s : List ℕ) → starts_with_digit s ≡ true → line_asks (codes "run " ++ s) ≡ run_id (stoi s)
run_asks s h = unfold line_asks text_eq begins drop in rw (no_word_all s h)

line_asks_lem : (w : Wish) → IsInt w → line_asks (line_for w) ≡ benches (wanted w)
line_asks_lem list h = unfold line_asks text_eq in refl
line_asks_lem run_all h = unfold line_asks text_eq run_bench in refl
line_asks_lem (run id) h =
    rw (run_asks (decimal id) (decimal_starts id), stoi-decimal id h, run_bench_lem id)

menu_goes_on :
    (rounds : ℕ) (lines : List (List ℕ)) (now : List Bench)
    → line_asks (next_line lines).0 ≡ benches now
    → menu (suc rounds) lines
      ≡ (now ++ (menu rounds (next_line lines).1).0, (menu rounds (next_line lines).1).1)
unfolding menu
menu_goes_on rounds lines now h = rw (menu, h) refl

menu_runs :
    (wishes : List Wish) (rest : List (List ℕ)) (ending : Ending) (rounds : ℕ)
    → AllInts wishes
    → length wishes < rounds
    → ((k : ℕ) → menu (suc k) rest ≡ ([], ending))
    → menu rounds (map line_for wishes ++ rest) ≡ (all_wanted wishes, ending)
menu_runs wishes rest ending zero all h ends = absurd (omega (arith, h))
menu_runs [] rest ending (suc rounds) all h ends = ends rounds
menu_runs (w ∷ wishes) rest ending (suc rounds) (now, later) h ends =
    let rest_runs = menu_runs wishes rest ending rounds later (omega (arith, h)) ends in
    let lines = line_for w ∷ (map line_for wishes ++ rest) in
    rw (menu_goes_on rounds lines (wanted w) (line_asks_lem w now), rest_runs) refl

-- A menu at the end of its input goes round and round.
menu_idles : (rounds : ℕ) → menu rounds [] ≡ ([], running)
menu_idles zero = unfold menu in refl
menu_idles (suc rounds) =
    let nothing : line_asks [] ≡ benches [] = unfold line_asks text_eq begins in refl in
    rw (menu_goes_on rounds [] [] nothing, menu_idles rounds) refl

abbrev pub exit_if : Bool → List (List ℕ)
exit_if leaves = if leaves then codes "exit" ∷ [] else []

last_ends :
    (leaves : Bool) (k : ℕ)
    → menu (suc k) (exit_if leaves) ≡ ([], if leaves then exited else running)
last_ends true k = unfold menu line_asks text_eq in refl
last_ends false k = menu_idles (suc k)

-- If the user types an address, a name and a password, and then `list`, `run all` or `run` with the
-- decimal digits of an `int`, any number of times, then a menu of more rounds than that runs the
-- benchmarks that are asked for, in order, with that connection data or the defaults for what is
-- empty. With `exit` behind that the program ends, and without it, it still runs.
pub main_ends :
    (ip username password : List ℕ) (wishes : List Wish) (leaves : Bool) (rounds : ℕ)
    → AllInts wishes
    → length wishes < rounds
    → main rounds (ip ∷ username ∷ password ∷ (map line_for wishes ++ exit_if leaves))
      ≡ (connection ip username password, (all_wanted wishes, if leaves then exited else running))
main_ends ip username password wishes leaves rounds all h =
    let ends = menu_runs wishes (exit_if leaves) _ rounds all h (last_ends leaves) in
    unfold main in rw ends
