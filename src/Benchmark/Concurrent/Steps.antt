-- ===== src/Benchmark/Concurrent/Steps.antt =====
-- What each turn of a thread of `run_concurrent_read_write` of benchmark/benchmark.cpp does, and so
-- all of them.
use kvstore_lkm.Prelude.{
  ℕ, zero, suc, ◌+◌, ◌^◌, ◌≡◌, ◌≤◌, ◌<◌, refl, sym, ap, ◌∙◌, inl, inr, Bool, true, false,
  Bool-cases, Option, some, List, [], ◌∷◌, ltb, arith, get_or, set, length, length-set,
}
use mathlib.Core.List.{map}
use mathlib.Core.Path.{subst}
use kvstore_lkm.Hash.View.{Contents}
use kvstore_lkm.Daemon.Connections.Shared.{set_get}
use kvstore_lkm.Benchmark.{Peer, Net, auth_user}
use kvstore_lkm.Benchmark.Login.{IsConnected, setup_run}
use kvstore_lkm.Benchmark.Concurrent.{
  Counters, Place, looping, ended, writer_round, round, turn_at, run_turns,
}
use kvstore_lkm.Benchmark.Concurrent.Clean.{with_count, writer_lem, reader_lem}
use kvstore_lkm.Benchmark.Concurrent.Turns.{
  wrote, has_read, writes_in, reads_in, place_of, place_looping, place_starting, get_or_beyond,
  set_beyond, length-places, place_set, ServesAll, Authed, Authed-set,
}

module _ {S : Type 0} {peers : ℕ → Peer S} {username password : List ℕ}
    {shows : List Bool → Contents → S → Type 0} (serves : ServesAll peers username password shows)
    (nets : ℕ → Net) (socks : ℕ → ℕ) (connected : (c : ℕ) → IsConnected (nets c) (suc (socks c)))
    (f : Contents) where
  -- What holds before a turn and after it.
  pub record Stands (made flags : List Bool) (last : ℕ) (s : S) : Type 0 where
    pub room : length made < length flags
    pub authed : Authed made flags
    pub small : last < 2 ^ 63
    pub shown : shows flags (with_count last f) s

  -- A turn before the stop: a login, or a round that is counted as good.
  record Stepped (made : List Bool) (i : ℕ) (c : Counters) (r : Option (Place × Counters × S))
      : Type 0 where
    place : Place
    counters : Counters
    state : S
    flags : List Bool
    last : ℕ
    run : r ≡ some (place, counters, state)
    placed : set (map place_of made) i place ≡ map place_of (set made i true)
    count : counters.count ≡ c.count + wrote made i
    writes : counters.writes ≡ c.writes + wrote made i
    reads : counters.reads ≡ c.reads + has_read made i
    none_empty : counters.empty_reads ≡ c.empty_reads
    none_bad : counters.bad_reads ≡ c.bad_reads
    stands : Stands (set made i true) flags last state

  module _ (made flags : List Bool) (c : Counters) (m : ℕ) (s : S)
      (stands : Stands made flags m s) where
    abbrev turn_of : ℕ → Option (Place × Counters × S)
    turn_of i =
        turn_at peers nets username password (get_or (map place_of made) i ended) false i c s

    still-Stands :
        (i n : ℕ) (s' : S)
        → get_or made i false ≡ true
        → n < 2 ^ 63
        → shows flags (with_count n f) s'
        → Stands (set made i true) flags n s'
    still-Stands i n s' here small shown =
        subst (λ made'. Stands made' flags n s') (sym (set_get made i true here))
          (record { room = stands.room; authed = stands.authed; small = small; shown = shown })

    -- A thread that has its connection.
    rounds :
        (i : ℕ)
        → c.count + wrote made i ≤ 2 ^ 63
        → get_or made i false ≡ true
        → Stepped made i c (turn_of i)
    unfolding turn_at round writer_round
    rounds zero few here =
        let one : wrote made 0 ≡ 1 = rw here refl in
        let none : has_read made 0 ≡ 0 = rw here refl in
        let below : c.count < 2 ^ 63 = omega (arith, few, one) in
        let keeps = serves.promise flags 1 (stands.authed 0 here) in
        let moved = writer_lem keeps f c m s below stands.shown in
        let (c', s') = writer_round (peers 1) c s in
        record {
          place = looping;
          counters = c';
          state = s';
          flags = flags;
          last = c.count;
          run = rw (place_looping made 0 here) refl;
          placed = place_set made 0;
          count = omega (arith, below, one);
          writes = omega (arith, one);
          reads = omega (arith, none);
          none_empty = refl;
          none_bad = refl;
          stands = still-Stands 0 c.count s' here below moved;
        }
    rounds (suc tid) few here =
        let none : wrote made (suc tid) ≡ 0 = ground (arith, here) in
        let one : has_read made (suc tid) ≡ 1 = ground (arith, here) in
        let keeps = serves.promise flags (suc (suc tid)) (stands.authed (suc tid) here) in
        let (s', run, still) = reader_lem keeps f c m s stands.small stands.shown in
        record {
          place = looping;
          counters = record c { reads = c.reads + 1 };
          state = s';
          flags = flags;
          last = m;
          run = rw (place_looping made (suc tid) here, run) refl;
          placed = place_set made (suc tid);
          count = omega (arith, none);
          writes = omega (arith, none);
          reads = omega (arith, one);
          none_empty = refl;
          none_bad = refl;
          stands = still-Stands (suc tid) m s' here stands.small still;
        }

    connects :
        (i : ℕ) → i < length made → get_or made i false ≡ false → Stepped made i c (turn_of i)
    unfolding turn_at
    connects i few away =
        let none : wrote made i ≡ 0 = rw away refl in
        let none' : has_read made i ≡ 0 = rw away refl in
        let peer = peers (suc i) in
        record {
          place = looping;
          counters = c;
          state = (auth_user peer username password s).1;
          flags = set flags (suc i) true;
          last = m;
          run =
              rw
                (
                  place_starting made i few away,
                  setup_run peer (nets (suc i)) (suc (socks (suc i))) username password s
                      (connected (suc i)),
                )
                refl;
          placed = place_set made i;
          count = omega (arith, none);
          writes = omega (arith, none);
          reads = omega (arith, none');
          none_empty = refl;
          none_bad = refl;
          stands = record {
            room =
                omega (arith, stands.room, length-set made i true, length-set flags (suc i) true);
            authed = Authed-set made flags i stands.room few stands.authed;
            small = stands.small;
            shown = serves.login flags (suc i) (with_count m f) s stands.shown;
          };
        }

    passes : (i : ℕ) → length made ≤ i → Stepped made i c (turn_of i)
    unfolding turn_at
    passes i beyond =
        let away = get_or_beyond made i false beyond in
        let none : wrote made i ≡ 0 = rw away refl in
        let none' : has_read made i ≡ 0 = rw away refl in
        let outside : length (map place_of made) ≤ i = omega (arith, length-places made, beyond) in
        record {
          place = ended;
          counters = c;
          state = s;
          flags = flags;
          last = m;
          run = rw (get_or_beyond (map place_of made) i ended outside) refl;
          placed =
              set_beyond (map place_of made) i ended outside
              ∙ ap (map place_of) (sym (set_beyond made i true beyond));
          count = omega (arith, none);
          writes = omega (arith, none);
          reads = omega (arith, none');
          none_empty = refl;
          none_bad = refl;
          stands =
              subst (λ made'. Stands made' flags m s) (sym (set_beyond made i true beyond)) stands;
        }

    turn-Stepped : (i : ℕ) → c.count + wrote made i ≤ 2 ^ 63 → Stepped made i c (turn_of i)
    turn-Stepped i few = elim (Bool-cases (get_or made i false)) [
      | inl here ↦ rounds i few here
      | inr away ↦ elim (Bool-cases (ltb i (length made))) [
        | inl inside ↦ connects i (ground (arith, inside)) away
        | inr beyond ↦ passes i (ground (arith, beyond))
      ]
    ]

  -- All the turns before the stop.
  pub record TurnsClean (made : List Bool) (turns : List ℕ) (c : Counters)
      (r : Option (List Place × Counters × S)) : Type 0 where
    pub places : List Place
    pub counters : Counters
    pub state : S
    pub flags : List Bool
    pub last : ℕ
    pub run : r ≡ some (places, counters, state)
    pub writes : counters.writes ≡ c.writes + writes_in made turns
    pub reads : counters.reads ≡ c.reads + reads_in made turns
    pub none_empty : counters.empty_reads ≡ c.empty_reads
    pub none_bad : counters.bad_reads ≡ c.bad_reads
    pub shown : shows flags (with_count last f) state

  pub run_turns-TurnsClean :
      (turns : List ℕ) (made flags : List Bool) (c : Counters) (m : ℕ) (s : S)
      → c.count + writes_in made turns ≤ 2 ^ 63
      → Stands made flags m s
      → TurnsClean made turns c
          (run_turns peers nets username password false turns (map place_of made) c s)
  unfolding run_turns
  run_turns-TurnsClean [] made flags c m s few stands = record {
    places = map place_of made;
    counters = c;
    state = s;
    flags = flags;
    last = m;
    run = refl;
    writes = omega arith;
    reads = omega arith;
    none_empty = refl;
    none_bad = refl;
    shown = stands.shown;
  }
  run_turns-TurnsClean (i ∷ turns) made flags c m s few stands =
      let now = turn-Stepped made flags c m s stands i (omega (arith, few)) in
      let later =
        run_turns-TurnsClean turns (set made i true) now.flags now.counters now.last now.state
          (omega (arith, few, now.count)) now.stands in
      record {
        places = later.places;
        counters = later.counters;
        state = later.state;
        flags = later.flags;
        last = later.last;
        run = rw (now.run, run_turns, now.placed) later.run;
        writes = omega (arith, now.writes, later.writes);
        reads = omega (arith, now.reads, later.reads);
        none_empty = later.none_empty ∙ now.none_empty;
        none_bad = later.none_bad ∙ now.none_bad;
        shown = later.shown;
      }
