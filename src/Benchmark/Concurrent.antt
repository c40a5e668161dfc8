-- ===== src/Benchmark/Concurrent.antt =====
-- `run_concurrent_read_write` of benchmark/benchmark.cpp: one thread writes a counter to a key, and
-- nine threads read it, each over a connection of its own.
pub mod Clean
pub mod Turns
pub mod Steps
pub mod Stop
pub mod Run
use kvstore_lkm.Prelude.{
  ℕ, zero, suc, ◌+◌, ◌%◌, ◌^◌, Bool, true, false, Option, none, some, List, [], ◌∷◌, ◌++◌,
  if◌then◌else◌, codes, get_or, set, replicate,
}
use kvstore_lkm.Text.{decimal}
use kvstore_lkm.Daemon.Command.{is_empty}
use kvstore_lkm.Daemon.Main.{no_device}
use kvstore_lkm.Benchmark.{
  Peer, Net, setup_connection, kv_insert, kv_get, kv_update, Checked, bad, overflow, good,
  check_value,
}

-- The key that all the threads use.
abbrev pub hot_key : List ℕ
hot_key = codes "0"

-- The writer's counter, and what the benchmark reports.
pub record Counters : Type 0 where
  pub count : ℕ
  pub writes : ℕ
  pub reads : ℕ
  pub empty_reads : ℕ
  pub bad_reads : ℕ

abbrev pub no_counts : Counters
no_counts = record { count = 0; writes = 0; reads = 0; empty_reads = 0; bad_reads = 0 }

-- Where a thread is: in front of its `setup_connection`, in its loop, or at its end.
pub data Place : Type 0 where
  starting looping ended : Place

-- `none`: `check_value` has overflowed.
abbrev pub judged : Checked → Counters → Option Counters
judged bad c = some (record c { bad_reads = c.bad_reads + 1 })
judged overflow c = none
judged (good n) c = some c

module _ {S : Type 0} (peer : Peer S) where
  unfoldable pub writer_round : Counters → S → Counters × S
  writer_round c s =
      let (res, s') = kv_update peer hot_key (codes "count:" ++ decimal c.count) s in
      (record c { count = (c.count + 1) % 2 ^ 64; writes = c.writes + 1 }, s')

  unfoldable pub reader_round : Counters → S → Option (Counters × S)
  reader_round c s =
      let (resp, s') = kv_get peer hot_key s in
      let c' = record c { reads = c.reads + 1 } in
      if is_empty resp
      then some (record c' { empty_reads = c'.empty_reads + 1 }, s')
      else elim (judged (check_value resp) c') [ none ↦ none | some c'' ↦ some (c'', s') ]

-- One connection for the first insert, and one for each thread: that of the writer, and those of
-- the readers by their `tid`.
abbrev pub connection_of : ℕ → ℕ
connection_of thread = suc thread

-- `join` waits for the threads: each that is not at its end gets the turns that it needs.
abbrev pub joins : List ℕ
joins = 0 ∷ 0 ∷ 1 ∷ 1 ∷ 2 ∷ 2 ∷ 3 ∷ 3 ∷ 4 ∷ 4 ∷ 5 ∷ 5 ∷ 6 ∷ 6 ∷ 7 ∷ 7 ∷ 8 ∷ 8 ∷ 9 ∷ 9 ∷ []

module _ {S : Type 0} (peers : ℕ → Peer S) (nets : ℕ → Net) (username password : List ℕ) where
  abbrev went_on : Option (Counters × S) → Option (Place × Counters × S)
  went_on none = none
  went_on (some (c, s)) = some (looping, c, s)

  -- A round of the writer, the thread 0, or of one of the readers.
  unfoldable pub round : ℕ → Counters → S → Option (Place × Counters × S)
  unfolding writer_round reader_round
  round zero c s = went_on (some (writer_round (peers (connection_of 0)) c s))
  round (suc tid) c s = went_on (reader_round (peers (connection_of (suc tid))) c s)

  -- A thread that is at `stop.load()` sees what is stored there at that moment.
  unfoldable pub turn_at : Place → Bool → ℕ → Counters → S → Option (Place × Counters × S)
  unfolding round setup_connection
  turn_at starting stop thread c s =
      let (sock, open_descriptors, s') =
        setup_connection (peers (connection_of thread)) (nets (connection_of thread)) username
          password s in
      some (if no_device sock then ended else looping, c, s')
  turn_at looping stop thread c s =
      let next = round thread c s in if stop then some (ended, c, s) else next
  turn_at ended stop thread c s = some (ended, c, s)

  -- The threads take turns in this order; a number without a thread does nothing. `none`:
  -- `check_value` has overflowed.
  unfoldable pub run_turns :
      Bool → List ℕ → List Place → Counters → S → Option (List Place × Counters × S)
  unfolding turn_at get_or set
  run_turns stop [] places c s = some (places, c, s)
  run_turns stop (i ∷ turns) places c s = elim (turn_at (get_or places i ended) stop i c s) [
    | none ↦ none
    | some (place, c', s') ↦ run_turns stop turns (set places i place) c' s'
  ]

  -- What the threads do until `stop` is set, and what they do from then on.
  abbrev pub stopped :
      List ℕ → Option (List Place × Counters × S) → Option (List Place × Counters × S)
  stopped late none = none
  stopped late (some (places, c, s)) = run_turns true (late ++ joins) places c s

  abbrev pub reported :
      Option (List Place × Counters × S) → Option (Option (List Place × Counters) × S)
  reported none = none
  reported (some (places, c, s)) = some (some (places, c), s)

  -- The turns of the threads before `stop` is set and after; where they are at the end, and what is
  -- reported. The first `none` stands for an overflow, the second for a first connection that fails.
  unfoldable pub run_concurrent_read_write :
      List ℕ → List ℕ → S → Option (Option (List Place × Counters) × S)
  unfolding run_turns replicate
  run_concurrent_read_write turns late s =
      let (sock, open_descriptors, s₁) = setup_connection (peers 0) (nets 0) username password s in
      if no_device sock
      then some (none, s₁)
      else let (res, s₂) = kv_insert (peers 0) hot_key (codes "count:0") s₁ in
        reported (stopped late (run_turns false turns (replicate 10 starting) no_counts s₂))
