-- ===== src/Hash/Locks/Calls.antt =====
-- The threads in the operations of kernel/kv_hash.c from the start: all of them in front of their
-- locks, and no lock taken.
use kvstore_lkm.Prelude.{
  ℕ, zero, suc, ◌*◌, ◌≤◌, ◌<◌, ◌≡◌, sym, ap, ◌∙◌, true, Option, none, some, List, [], ◌∷◌, flatten,
  length, get_or-replicate, replicate, length-replicate, arith,
}
use mathlib.Core.Bool.{false≢true}
use mathlib.Core.Option.{some_inj}
use kvstore_lkm.Hash.Chain.{Chain}
use kvstore_lkm.Hash.Locks.{waiting, Caller, Machine, caller_at, moves}
use kvstore_lkm.Hash.Locks.Safe.{Inv, is_inside}
use kvstore_lkm.Hash.Locks.Invariant.{one_inside}
use kvstore_lkm.Hash.Locks.Serial.{Serial, moves-Serial}
use kvstore_lkm.Hash.Locks.Progress.{total-le}
use kvstore_lkm.Hash.Locks.Rounds.{AllRounds, AllLeft, rounds_end, total-AllLeft}

-- Each thread waits for the lock of a bucket of the table.
abbrev pub AllWaiting : ℕ → List Caller → Type 0
AllWaiting buckets [] = Unit
AllWaiting buckets (w ∷ ws) = (w.stage ≡ waiting) × (w.bucket < buckets) × AllWaiting buckets ws

-- The chains, with all their locks free.
abbrev pub free : List Chain → Machine
free chains = record { chains = chains; locks = replicate (length chains) none }

at_start :
    (n : ℕ) (ws : List Caller) (i : ℕ) (w : Caller)
    → AllWaiting n ws
    → caller_at i ws ≡ some w
    → (w.stage ≡ waiting) × (w.bucket < n)
unfolding caller_at
at_start n [] i w all here = ground (arith, here)
at_start n (x ∷ ws) zero w (stage, few, all) here =
    let w_is : x ≡ w = some_inj.0 here in
    (
      ap (λ (y : Caller). y.stage) (sym w_is) ∙ stage,
      omega (arith, few, ap (λ (y : Caller). y.bucket) w_is),
    )
at_start n (x ∷ ws) (suc i) w (stage, few, all) here = at_start n ws i w all here

module _ (chains : List Chain) (ws : List Caller) (all : AllWaiting (length chains) ws) where
  pub start-Inv : Inv ws (free chains)
  start-Inv = record {
    safe = λ i w here.
        let (stage, few) = at_start (length chains) ws i w all here in
        record {
          owns = λ inside. absurd (false≢true (ap is_inside (sym stage) ∙ inside));
          fresh = λ c e. cc;
          in_table = omega (arith, few, length-replicate {A = Option ℕ} (length chains) none);
        };
    held = λ b i h.
        let nobody = sym (get_or-replicate {A = Option ℕ} (length chains) b none) ∙ h in cc;
  }

  pub calls-Serial : (is : List ℕ) → Serial is ws (free chains)
  calls-Serial is = moves-Serial is ws (free chains) start-Inv

  -- Mutual exclusion: if any number of threads start in front of the locks of buckets of the table,
  -- with no lock taken, then after any steps of theirs no two threads are between taking the lock
  -- and the release on the same bucket.
  pub calls_apart :
      (is : List ℕ) (i j : ℕ) (u v : Caller)
      → caller_at i (moves is ws (free chains)).0 ≡ some u
      → caller_at j (moves is ws (free chains)).0 ≡ some v
      → u.bucket ≡ v.bucket
      → is_inside u.stage ≡ true
      → is_inside v.stage ≡ true
      → i ≡ j
  calls_apart is = one_inside is start-Inv

  -- No thread waits for ever: if the threads start in front of the locks of buckets of the table,
  -- with no lock taken, then after 4 rounds for each thread, in each of which every thread has at
  -- least one turn, in any order, all of them have released their lock and left.
  pub calls_end :
      (rounds : List (List ℕ))
      → AllRounds (length ws) rounds
      → 4 * length ws ≤ length rounds
      → AllLeft (moves (flatten rounds) ws (free chains)).0
  calls_end rounds turns enough =
      total-AllLeft (moves (flatten rounds) ws (free chains)).0
        (rounds_end rounds start-Inv turns (omega (arith, total-le ws, enough)))
