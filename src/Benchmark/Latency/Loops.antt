-- ===== src/Benchmark/Latency/Loops.antt =====
-- What the loops of the latency benchmarks of benchmark/benchmark.cpp make of a map.
use kvstore_lkm.Prelude.{
  ℕ, zero, suc, ◌+◌, ◌-◌, ◌≡◌, ◌≤◌, ◌<◌, refl, ap, ◌&&◌, none, some, List, arith, ltb, leb, ◌==◌,
  if◌then◌else◌, true, false,
}
use mathlib.Core.Path.{fun_ext, subst}
use kvstore_lkm.Hash.View.{Contents, update}
use kvstore_lkm.Benchmark.Latency.{each}

-- What every round keeps, the loop keeps.
pub each_lem :
    {S : Type 0} (P : ℕ → S → Type 0) (body : ℕ → S → S) (high : ℕ)
    → ((i : ℕ) (s : S) → i < high → P i s → P (suc i) (body i s))
    → (rounds i : ℕ) (s : S) → i + rounds ≡ high
    → P i s
    → P high (each rounds i body s)
unfolding each
each_lem P body high keeps zero i s sum h =
    let same : i ≡ high = omega (arith, sum) in subst (λ j. P j s) same h
each_lem P body high keeps (suc rounds) i s sum h =
    each_lem P body high keeps rounds (suc i) (body i s) (omega (arith, sum))
      (keeps i s (omega (arith, sum)) h)

-- The map with values at the keys from `first + low` on and below `first + high`.
abbrev pub span : (ℕ → List ℕ) → ℕ → ℕ → ℕ → Contents → Contents
span value first low high f q =
    if leb (first + low) q && ltb q (first + high) then some (value (q - first)) else f q

pub span_none : (value : ℕ → List ℕ) (first low : ℕ) (f : Contents) → span value first low low f ≡ f
span_none value first low f = fun_ext (λ q. ground arith)

pub span_more :
    (value : ℕ → List ℕ) (first high : ℕ) (f : Contents)
    → update (span value first 0 high f) (first + high) (some (value high))
      ≡ span value first 0 (suc high) f
span_more value first high f = fun_ext (λ q.
    let same : (first + high == q) ≡ true → value high ≡ value (q - first) =
      λ e. ap value (ground (arith, e)) in
    ground (arith, same))

pub span_less :
    (value : ℕ → List ℕ) (first low high : ℕ) (f : Contents)
    → low < high
    → f (first + low) ≡ none
    → update (span value first low high f) (first + low) none ≡ span value first (suc low) high f
span_less value first low high f h absent = fun_ext (λ q. ground (arith, absent))

-- A value over a value.
pub span_over :
    (value value' : ℕ → List ℕ) (first low high : ℕ) (f : Contents)
    → span value' first low high (span value first low high f) ≡ span value' first low high f
span_over value value' first low high f = fun_ext (λ q. ground arith)

-- What a span holds, and what it leaves alone.
pub span_at :
    (value : ℕ → List ℕ) (first low high i : ℕ) (f : Contents)
    → low ≤ i
    → i < high
    → span value first low high f (first + i) ≡ some (value i)
span_at value first low high i f h g =
    let same : first + i - first ≡ i = omega arith in
    let inside : (leb (first + low) (first + i) && ltb (first + i) (first + high)) ≡ true =
      ground (arith, h, g) in
    rw (inside, same) refl

pub span_outside :
    (value : ℕ → List ℕ) (first low high q : ℕ) (f : Contents)
    → (leb (first + low) q && ltb q (first + high)) ≡ false
    → span value first low high f q ≡ f q
span_outside value first low high q f h = rw h refl
