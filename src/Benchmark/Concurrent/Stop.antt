-- ===== src/Benchmark/Concurrent/Stop.antt =====
-- The threads of `run_concurrent_read_write` of benchmark/benchmark.cpp after the stop: they make no
-- more rounds, and are at their end at the join.
use kvstore_lkm.Prelude.{
  ◌-◌, ◌++◌, if◌then◌else◌, ◌==◌, Bool-cases, inl, inr, ℕ, zero, suc, ◌+◌, ◌≡◌, ◌≤◌, ◌<◌, refl, inl,
  inr, Bool, true, Bool-cases, Option, some, List, [], ◌∷◌, arith, get_or, set,
}
use kvstore_lkm.Hash.View.{Contents}
use kvstore_lkm.Benchmark.{Peer, Net, auth_user}
use kvstore_lkm.Benchmark.Login.{IsConnected, setup_run}
use kvstore_lkm.Benchmark.Concurrent.{
  Counters, Place, starting, looping, ended, turn_at, run_turns, joins,
}
use kvstore_lkm.Benchmark.Concurrent.Clean.{with_count}
use kvstore_lkm.Benchmark.Concurrent.Turns.{ServesAll}

-- The turns that a thread needs after the stop.
abbrev left_over : Place → ℕ
left_over starting = 2
left_over looping = 1
left_over ended = 0

abbrev turns_of : ℕ → List ℕ → ℕ
turns_of j [] = 0
turns_of j (i ∷ turns) = (if i == j then 1 else 0) + turns_of j turns

-- Each of the ten threads is at its end.
abbrev pub AllEnded : List Place → Type 0
AllEnded places = (j : ℕ) → j < 10 → get_or places j ended ≡ ended

left_set :
    (places : List Place) (i : ℕ) (p : Place) (j : ℕ)
    → left_over (get_or (set places i p) j ended)
      ≤ (if i == j then left_over p else left_over (get_or places j ended))
unfolding get_or set
left_set [] i p j = omega arith
left_set (x ∷ places) zero p zero = omega arith
left_set (x ∷ places) zero p (suc j) = ground arith
left_set (x ∷ places) (suc i) p zero = ground arith
left_set (x ∷ places) (suc i) p (suc j) = ground (arith, left_set places i p j)

turns_of-append : (j : ℕ) (xs ys : List ℕ) → turns_of j (xs ++ ys) ≡ turns_of j xs + turns_of j ys
turns_of-append j [] ys = omega arith
turns_of-append j (i ∷ xs) ys = omega (arith, turns_of-append j xs ys)

-- Every thread has the two turns that it may need.
joins_twice : (j : ℕ) → j < 10 → 2 ≤ turns_of j joins
joins_twice zero few = omega arith
joins_twice (suc zero) few = omega arith
joins_twice (suc (suc zero)) few = omega arith
joins_twice (suc (suc (suc zero))) few = omega arith
joins_twice (suc (suc (suc (suc zero)))) few = omega arith
joins_twice (suc (suc (suc (suc (suc zero))))) few = omega arith
joins_twice (suc (suc (suc (suc (suc (suc zero)))))) few = omega arith
joins_twice (suc (suc (suc (suc (suc (suc (suc zero))))))) few = omega arith
joins_twice (suc (suc (suc (suc (suc (suc (suc (suc zero)))))))) few = omega arith
joins_twice (suc (suc (suc (suc (suc (suc (suc (suc (suc zero))))))))) few = omega arith
joins_twice (suc (suc (suc (suc (suc (suc (suc (suc (suc (suc j)))))))))) few =
    absurd (omega (arith, few))

left_small : (p : Place) → left_over p ≤ 2
left_small starting = omega arith
left_small looping = omega arith
left_small ended = omega arith

none_left : (p : Place) → left_over p ≤ 0 → p ≡ ended
none_left starting h = absurd (omega (arith, h))
none_left looping h = absurd (omega (arith, h))
none_left ended h = refl

module _ {S : Type 0} {peers : ℕ → Peer S} {username password : List ℕ}
    {shows : List Bool → Contents → S → Type 0} (serves : ServesAll peers username password shows)
    (nets : ℕ → Net) (socks : ℕ → ℕ) (connected : (c : ℕ) → IsConnected (nets c) (suc (socks c)))
    (f : Contents) where
  -- After the stop: logins only.
  pub record StopsClean (turns : List ℕ) (before : List Place) (last : ℕ) (c : Counters)
      (r : Option (List Place × Counters × S)) : Type 0 where
    pub places : List Place
    pub state : S
    pub flags : List Bool
    pub run : r ≡ some (places, c, state)
    pub shown : shows flags (with_count last f) state
    pub nearer :
        (j : ℕ)
        → left_over (get_or places j ended) ≤ left_over (get_or before j ended) - turns_of j turns

  late_turn :
      (p : Place) (i : ℕ) (flags : List Bool) (c : Counters) (m : ℕ) (s : S)
      → shows flags (with_count m f) s
      → (p' : Place) × (s' : S) × (flags' : List Bool) × (turn_at peers nets username password p
            true i c s
          ≡ some (p', c, s'))
        × shows flags' (with_count m f) s'
        × (left_over p' ≡ left_over p - 1)
  unfolding turn_at
  late_turn starting i flags c m s shown =
      let peer = peers (suc i) in
      (
        looping,
        (auth_user peer username password s).1,
        set flags (suc i) true,
        rw
            (setup_run peer (nets (suc i)) (suc (socks (suc i))) username password s
              (connected (suc i)))
            refl,
        serves.login flags (suc i) (with_count m f) s shown,
        refl,
      )
  late_turn looping i flags c m s shown = (ended, s, flags, refl, shown, refl)
  late_turn ended i flags c m s shown = (ended, s, flags, refl, shown, refl)

  pub run_turns-StopsClean :
      (turns : List ℕ) (places : List Place) (flags : List Bool) (c : Counters) (m : ℕ) (s : S)
      → shows flags (with_count m f) s
      → StopsClean turns places m c (run_turns peers nets username password true turns places c s)
  unfolding run_turns
  run_turns-StopsClean [] places flags c m s shown = record {
    places = places;
    state = s;
    flags = flags;
    run = refl;
    shown = shown;
    nearer = λ j. omega arith;
  }
  run_turns-StopsClean (i ∷ turns) places flags c m s shown =
      let (p, s', flags', run, shown', less) =
        late_turn (get_or places i ended) i flags c m s shown in
      let later = run_turns-StopsClean turns (set places i p) flags' c m s' shown' in
      record {
        places = later.places;
        state = later.state;
        flags = later.flags;
        run = rw (run, run_turns) later.run;
        shown = later.shown;
        nearer = λ j. elim (Bool-cases (i == j)) [
          | inl same ↦ ground (arith, later.nearer j, left_set places i p j, less, same)
          | inr apart ↦ ground (arith, later.nearer j, left_set places i p j, apart)
        ];
      }

  -- After the join no thread is left.
  pub join-AllEnded :
      (late : List ℕ) (places : List Place) (m : ℕ) (c : Counters)
      (r : Option (List Place × Counters × S)) (clean : StopsClean (late ++ joins) places m c r)
      → AllEnded clean.places
  join-AllEnded late places m c r clean j few =
      let few_left = left_small (get_or places j ended) in
      none_left (get_or clean.places j ended)
        (omega (arith, clean.nearer j, few_left, turns_of-append j late joins, joins_twice j few))
