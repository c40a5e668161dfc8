-- ===== src/Benchmark/Latency/Threads/Apart.antt =====
-- The keys of the threads of `run_latency_bench_multi_thread` of benchmark/benchmark.cpp, and the
-- orders in which the daemon may get their commands.
use kvstore_lkm.Prelude.{
  ℕ, zero, suc, ◌+◌, ◌*◌, ◌≡◌, ◌≤◌, ◌<◌, refl, ap, sym, ◌∙◌, Bool, true, false, not, ◌&&◌, ◌||◌,
  inl, inr, Bool-cases, List, [], ◌∷◌, ◌++◌, ◌==◌, leb, ltb, length, arith,
}
use mathlib.Core.Path.{subst}
use kvstore_lkm.Daemon.Protocol.{written, IsOrder}
use kvstore_lkm.Daemon.Connections.Shared.{Asked, AllFit}
use kvstore_lkm.Daemon.Connections.Isolated.{own, KeysApart}
use kvstore_lkm.Benchmark.Latency.{key_count, warmup_count}
use kvstore_lkm.Benchmark.Latency.Threads.{base_key, thread_asks}

-- The keys of a thread.
abbrev pub in_keys : ℕ → ℕ → Bool
in_keys tid q =
    (leb (base_key tid) q && ltb q (base_key tid + key_count))
    || (leb (base_key tid + key_count * 10) q
        && ltb q (base_key tid + key_count * 10 + warmup_count))

-- The keys of none of so many threads.
abbrev pub outside : ℕ → ℕ → Bool
outside zero q = true
outside (suc tid) q = not (in_keys tid q) && outside tid q

same_keys : (c d q : ℕ) → in_keys d q ≡ true → in_keys c q ≡ (d == c)
same_keys c d q h = elim (Bool-cases (d == c)) [
  | inl same ↦
      let key : d ≡ c = ground (arith, same) in ap (λ e. in_keys e q) (sym key) ∙ h ∙ sym same
  | inr different ↦ apart different ∙ sym different
]
  where
    apart : (d == c) ≡ false → in_keys c q ≡ false
    apart e = ground (arith, h, e)

not_outside : (count tid q : ℕ) → tid < count → in_keys tid q ≡ true → outside count q ≡ false
not_outside zero tid q few h = absurd (omega (arith, few))
not_outside (suc count) tid q few h = elim (Bool-cases (tid == count)) [
  | inl same ↦
      let key : tid ≡ count = ground (arith, same) in
      let held : in_keys count q ≡ true = ap (λ e. in_keys e q) (sym key) ∙ h in rw held refl
  | inr different ↦
      let fewer : tid < count = ground (arith, few, different) in
      let rest = not_outside count tid q fewer h in cover (in_keys count q) (outside count q) rest
]
  where
    cover : (a b : Bool) → b ≡ false → (not a && b) ≡ false
    cover true b e = refl
    cover false b e = e

-- A command of one of the threads, as the daemon takes it.
pub record IsOurs (a : Asked) : Type 0 where
  pub order : IsOrder a.order
  pub fits : length (written a.order) ≤ 1023
  pub few : a.connection < 8
  pub key : in_keys a.connection a.order.key ≡ true

abbrev pub AllOurs : List Asked → Type 0
AllOurs [] = Unit
AllOurs (a ∷ asks) = IsOurs a × AllOurs asks

-- The commands of the 8 threads, those of each in order.
pub record IsMerge (asks : List Asked) : Type 0 where
  pub ours : (c : ℕ) → c < 8 → own c asks ≡ thread_asks c
  pub others : (c : ℕ) → 8 ≤ c → own c asks ≡ []

pub AllOurs-append : (xs ys : List Asked) → AllOurs xs → AllOurs ys → AllOurs (xs ++ ys)
AllOurs-append [] ys h g = g
AllOurs-append (x ∷ xs) ys (h, hs) g = (h, AllOurs-append xs ys hs g)

own_self : (a : Asked) (asks : List Asked) → own a.connection (a ∷ asks) ≡ a ∷ own a.connection asks
own_self a asks = let same : (a.connection == a.connection) ≡ true = ground arith in rw same refl

own_rest :
    (c : ℕ) (a : Asked) (asks : List Asked) → AllOurs (own c (a ∷ asks)) → AllOurs (own c asks)
own_rest c a asks h = elim (Bool-cases (a.connection == c)) [
  | inl same ↦ let e : own c (a ∷ asks) ≡ a ∷ own c asks = rw same refl in (subst AllOurs e h).1
  | inr different ↦ let e : own c (a ∷ asks) ≡ own c asks = rw different refl in subst AllOurs e h
]

pub own_ours : (asks : List Asked) → ((c : ℕ) → AllOurs (own c asks)) → AllOurs asks
own_ours [] h = tt
own_ours (a ∷ asks) h = (
  (subst AllOurs (own_self a asks) (h a.connection)).0,
  own_ours asks (λ c. own_rest c a asks (h c)),
)

pub AllOurs-AllFit : (asks : List Asked) → AllOurs asks → AllFit asks
AllOurs-AllFit [] h = tt
AllOurs-AllFit (a ∷ asks) (h, hs) = (h.order, h.fits, AllOurs-AllFit asks hs)

pub AllOurs-KeysApart : (c : ℕ) (asks : List Asked) → AllOurs asks → KeysApart c (in_keys c) asks
AllOurs-KeysApart c [] h = tt
AllOurs-KeysApart c (a ∷ asks) (h, hs) =
    (same_keys c a.connection a.order.key h.key, AllOurs-KeysApart c asks hs)

-- A connection that none of them uses.
pub outside-KeysApart : (asks : List Asked) → AllOurs asks → KeysApart 8 (outside 8) asks
outside-KeysApart [] h = tt
outside-KeysApart (a ∷ asks) (h, hs) =
    let unused : (a.connection == 8) ≡ false = ground (arith, h.few) in
    (not_outside 8 a.connection a.order.key h.few h.key ∙ sym unused, outside-KeysApart asks hs)
