-- ===== src/Benchmark/Latency/Threads/Turns.antt =====
-- The threads of `run_latency_bench_multi_thread` of benchmark/benchmark.cpp one after another, as
-- one of the orders in which the daemon may get their commands.
use kvstore_lkm.Prelude.{
  ℕ, zero, suc, ◌≡◌, ◌≤◌, ◌<◌, refl, ap, ◌∙◌, true, false, inl, inr, Bool-cases, List, [], ◌∷◌,
  ◌++◌, ◌==◌, arith,
}
use mathlib.Core.List.{append-nil}
use kvstore_lkm.Daemon.Protocol.{Order}
use kvstore_lkm.Daemon.Connections.Shared.{Asked}
use kvstore_lkm.Daemon.Connections.Isolated.{own}
use kvstore_lkm.Benchmark.Latency.{key_count, warmup_count}
use kvstore_lkm.Benchmark.Latency.Threads.{
  warm_order, insert_order, lookup_order, update_order, delete_order, loop_asks, thread_asks,
}
use kvstore_lkm.Benchmark.Latency.Threads.Apart.{IsMerge}

-- One thread after another, so many of them.
abbrev pub in_turn : ℕ → List Asked
in_turn zero = []
in_turn (suc tid) = in_turn tid ++ thread_asks tid

own-append : (c : ℕ) (xs ys : List Asked) → own c (xs ++ ys) ≡ own c xs ++ own c ys
own-append c [] ys = refl
own-append c (a ∷ xs) ys = elim (Bool-cases (a.connection == c)) [
  | inl same ↦ rw same (ap (λ r. a ∷ r) (own-append c xs ys))
  | inr different ↦ rw different (own-append c xs ys)
]

own_loop :
    (c : ℕ) (order : ℕ → Order) (rounds i : ℕ)
    → own c (loop_asks c order rounds i) ≡ loop_asks c order rounds i
unfolding loop_asks
own_loop c order zero i = refl
own_loop c order (suc rounds) i =
    let same : (c == c) ≡ true = ground arith in
    rw same
      (ap (λ r. record { connection = c; order = order i } ∷ r) (own_loop c order rounds (suc i)))

other_loop :
    (c tid : ℕ) (order : ℕ → Order) (rounds i : ℕ)
    → (tid == c) ≡ false
    → own c (loop_asks tid order rounds i) ≡ []
unfolding loop_asks
other_loop c tid order zero i h = refl
other_loop c tid order (suc rounds) i h = rw h (other_loop c tid order rounds (suc i) h)

own-five :
    (c : ℕ) (a b d e f a' b' d' e' f' : List Asked)
    → own c a ≡ a'
    → own c b ≡ b'
    → own c d ≡ d'
    → own c e ≡ e'
    → own c f ≡ f'
    → own c (a ++ (b ++ (d ++ (e ++ f)))) ≡ a' ++ (b' ++ (d' ++ (e' ++ f')))
own-five c a b d e f a' b' d' e' f' h₁ h₂ h₃ h₄ h₅ =
    rw
      (
        own-append c a (b ++ (d ++ (e ++ f))),
        own-append c b (d ++ (e ++ f)),
        own-append c d (e ++ f),
        own-append c e f,
        h₁,
        h₂,
        h₃,
        h₄,
        h₅,
      )
      refl

own_thread : (c : ℕ) → own c (thread_asks c) ≡ thread_asks c
own_thread c =
    own-five c _ _ _ _ _ _ _ _ _ _ (own_loop c (warm_order c) warmup_count 0)
      (own_loop c (insert_order c) key_count 0) (own_loop c (lookup_order c) key_count 0)
      (own_loop c (update_order c) key_count 0) (own_loop c (delete_order c) key_count 0)

other_thread : (c tid : ℕ) → (tid == c) ≡ false → own c (thread_asks tid) ≡ []
other_thread c tid h =
    own-five c _ _ _ _ _ _ _ _ _ _ (other_loop c tid (warm_order tid) warmup_count 0 h)
      (other_loop c tid (insert_order tid) key_count 0 h)
      (other_loop c tid (lookup_order tid) key_count 0 h)
      (other_loop c tid (update_order tid) key_count 0 h)
      (other_loop c tid (delete_order tid) key_count 0 h)

later_turns : (count c : ℕ) → count ≤ c → own c (in_turn count) ≡ []
later_turns zero c h = refl
later_turns (suc count) c h =
    let different : (count == c) ≡ false = ground (arith, h) in
    rw (own-append c (in_turn count) (thread_asks count), later_turns count c (omega (arith, h)))
      (other_thread c count different)

turn_of : (count c : ℕ) → c < count → own c (in_turn count) ≡ thread_asks c
turn_of zero c h = absurd (omega (arith, h))
turn_of (suc count) c h = elim (Bool-cases (count == c)) [
  | inl same ↦
      let key : count ≡ c = ground (arith, same) in
      let late : count ≤ c = omega (arith, key) in
      rw (own-append c (in_turn count) (thread_asks count), later_turns count c late)
        (ap (λ d. own c (thread_asks d)) key ∙ own_thread c)
  | inr different ↦
      let fewer : c < count = ground (arith, h, different) in
      rw
        (
          own-append c (in_turn count) (thread_asks count),
          turn_of count c fewer,
          other_thread c count different,
        )
        (append-nil (thread_asks c))
]

pub in_turn-IsMerge : IsMerge (in_turn 8)
in_turn-IsMerge = record { ours = λ c h. turn_of 8 c h; others = λ c h. later_turns 8 c h }
