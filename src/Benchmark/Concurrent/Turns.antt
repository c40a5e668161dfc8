-- ===== src/Benchmark/Concurrent/Turns.antt =====
-- The turns of the threads of `run_concurrent_read_write` of benchmark/benchmark.cpp, over connections
-- that keep the promise of the daemon.
use kvstore_lkm.Prelude.{
  ℕ, zero, suc, ◌+◌, ◌≡◌, ◌≤◌, ◌<◌, ◌==◌, refl, ap, inl, inr, Bool, true, false, Bool-cases, not,
  ◌&&◌, List, [], ◌∷◌, if◌then◌else◌, arith, get_or, set, length, get_or-set,
}
use mathlib.Core.Bool.{false≢true}
use mathlib.Core.List.{map}
use kvstore_lkm.Hash.View.{Contents}
use kvstore_lkm.Daemon.Protocol.{promised}
use kvstore_lkm.Benchmark.{Peer, auth_user}
use kvstore_lkm.Benchmark.Promise.{KeepsPromise}
use kvstore_lkm.Benchmark.Concurrent.{Place, starting, looping, ended, connection_of}

-- The first turn of a thread makes its connection, and every other one before the stop is a round.
abbrev pub wrote : List Bool → ℕ → ℕ
wrote made i = if get_or made i false && i == 0 then 1 else 0

abbrev pub has_read : List Bool → ℕ → ℕ
has_read made i = if get_or made i false && not (i == 0) then 1 else 0

abbrev pub writes_in : List Bool → List ℕ → ℕ
writes_in made [] = 0
writes_in made (i ∷ turns) = wrote made i + writes_in (set made i true) turns

abbrev pub reads_in : List Bool → List ℕ → ℕ
reads_in made [] = 0
reads_in made (i ∷ turns) = has_read made i + reads_in (set made i true) turns

-- Where the threads are before the stop, by who has made its connection.
abbrev pub place_of : Bool → Place
place_of false = starting
place_of true = looping

pub place_looping :
    (made : List Bool) (i : ℕ)
    → get_or made i false ≡ true
    → get_or (map place_of made) i ended ≡ looping
unfolding get_or
place_looping [] i h = absurd (false≢true h)
place_looping (x ∷ made) zero h = ap place_of h
place_looping (x ∷ made) (suc i) h = place_looping made i h

pub place_starting :
    (made : List Bool) (i : ℕ)
    → i < length made
    → get_or made i false ≡ false
    → get_or (map place_of made) i ended ≡ starting
unfolding get_or
place_starting [] i few h = absurd (omega (arith, few))
place_starting (x ∷ made) zero few h = ap place_of h
place_starting (x ∷ made) (suc i) few h = place_starting made i (omega (arith, few)) h

pub get_or_beyond : {A : Type 0} (xs : List A) (i : ℕ) (d : A) → length xs ≤ i → get_or xs i d ≡ d
unfolding get_or
get_or_beyond [] i d h = refl
get_or_beyond (x ∷ xs) zero d h = absurd (omega (arith, h))
get_or_beyond (x ∷ xs) (suc i) d h = get_or_beyond xs i d (omega (arith, h))

pub set_beyond : {A : Type 0} (xs : List A) (i : ℕ) (v : A) → length xs ≤ i → set xs i v ≡ xs
unfolding set
set_beyond [] i v h = refl
set_beyond (x ∷ xs) zero v h = absurd (omega (arith, h))
set_beyond (x ∷ xs) (suc i) v h = ap (λ r. x ∷ r) (set_beyond xs i v (omega (arith, h)))

pub length-places : (made : List Bool) → length (map place_of made) ≡ length made
length-places [] = refl
length-places (x ∷ made) = ap suc (length-places made)

pub place_set :
    (made : List Bool) (i : ℕ) → set (map place_of made) i looping ≡ map place_of (set made i true)
unfolding set
place_set [] i = refl
place_set (x ∷ made) zero = refl
place_set (x ∷ made) (suc i) = ap (λ r. place_of x ∷ r) (place_set made i)

-- Each connection keeps the promise of the daemon once it has authenticated, and its login does that.
pub record ServesAll {S : Type 0} (peers : ℕ → Peer S) (username password : List ℕ)
    (shows : List Bool → Contents → S → Type 0) : Type 0 where
  pub promise :
      (flags : List Bool) (c : ℕ)
      → get_or flags c false ≡ true
      → KeepsPromise (peers c) promised (shows flags)
  pub login :
      (flags : List Bool) (c : ℕ) (f : Contents) (s : S)
      → shows flags f s
      → shows (set flags c true) f (auth_user (peers c) username password s).1

-- Who has made its connection has authenticated over it.
abbrev pub Authed : List Bool → List Bool → Type 0
Authed made flags =
    (i : ℕ) → get_or made i false ≡ true → get_or flags (connection_of i) false ≡ true

-- Authed stays so.
pub Authed-set :
    (made flags : List Bool) (i : ℕ)
    → length made < length flags
    → i < length made
    → Authed made flags
    → Authed (set made i true) (set flags (connection_of i) true)
Authed-set made flags i room few authed q h = elim (Bool-cases (i == q)) [
  | inl same ↦
      let it = get_or-set flags (suc i) (suc q) true false (omega (arith, room, few)) in
      ground (arith, it, same)
  | inr different ↦
      let there = get_or-set made i q true false few in
      let it = get_or-set flags (suc i) (suc q) true false (omega (arith, room, few)) in
      ground (arith, it, authed q (ground (arith, there, different, h)), different)
]
