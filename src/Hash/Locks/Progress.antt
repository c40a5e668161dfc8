-- ===== src/Hash/Locks/Progress.antt =====
-- The threads in the operations of kernel/kv_hash.c do not block each other for ever.
use kvstore_lkm.Prelude.{
  ℕ, zero, suc, ◌+◌, ◌*◌, ◌≤◌, ◌≡◌, refl, sym, ap, ◌⊎◌, inl, inr, Bool, true, false, Option, none,
  some, List, [], ◌∷◌, length, set, arith,
}
use mathlib.Core.Bool.{false≢true}
use mathlib.Core.Option.{some_inj}
use kvstore_lkm.Hash.Locks.{
  Stage, waiting, locked, walked, written, left, Caller, Machine, holder, taken, step_at, caller_at,
  moved, one_move,
}
use kvstore_lkm.Hash.Locks.Safe.{is_inside}

-- The steps that are left.
abbrev pub cost : Stage → ℕ
cost waiting = 4
cost locked = 3
cost (walked c) = 2
cost (written answer) = 1
cost (left answer) = 0

abbrev pub total : List Caller → ℕ
total [] = 0
total (w ∷ ws) = cost w.stage + total ws

total-set :
    (ws : List Caller) (i : ℕ) (w w' : Caller)
    → caller_at i ws ≡ some w
    → total (set ws i w') + cost w.stage ≡ total ws + cost w'.stage
unfolding caller_at set
total-set [] i w w' h = ground (arith, h)
total-set (x ∷ ws) zero w w' h =
    let x_is : cost x.stage ≡ cost w.stage = ap (λ (y : Caller). cost y.stage) (some_inj.0 h) in
    omega (arith, x_is)
total-set (x ∷ ws) (suc i) w w' h = omega (arith, total-set ws i w w' h)

pub total-le : (ws : List Caller) → total ws ≤ 4 * length ws
total-le [] = omega arith
total-le (w ∷ ws) = omega (arith, total-le ws, stage_cost w.stage)
  where
    stage_cost : (s : Stage) → cost s ≤ 4
    stage_cost waiting = omega arith
    stage_cost locked = omega arith
    stage_cost (walked c) = omega arith
    stage_cost (written answer) = omega arith
    stage_cost (left answer) = omega arith

-- A step changes nothing, or leaves one step less.
abbrev pub Moves : List Caller → Machine → List Caller × Machine → Type 0
Moves ws m r = (r ≡ (ws, m)) ⊎ (total r.0 + 1 ≡ total ws)

set_same : (ws : List Caller) (i : ℕ) (w : Caller) → caller_at i ws ≡ some w → set ws i w ≡ ws
unfolding caller_at set
set_same [] i w h = refl
set_same (x ∷ ws) zero w h = ap (λ y. y ∷ ws) (sym (some_inj.0 h))
set_same (x ∷ ws) (suc i) w h = ap (λ r. x ∷ r) (set_same ws i w h)

abbrev pub is_left : Stage → Bool
is_left (left answer) = true
is_left _ = false

module _ (ws : List Caller) (m : Machine) (i : ℕ) (w : Caller)
    (here : caller_at i ws ≡ some w) where
  goes :
      (s : Stage) (w' : Caller)
      → w.stage ≡ s
      → cost w'.stage + 1 ≡ cost s
      → total (set ws i w') + 1 ≡ total ws
  goes s w' e less =
      let stage : cost w.stage ≡ cost s = ap cost e in
      omega (arith, total-set ws i w w' here, stage, less)

  -- A thread behind a lock can always go on.
  pub inside_goes :
      (s : Stage)
      → w.stage ≡ s
      → is_inside s ≡ true
      → total (set ws i (step_at s i w m).0) + 1 ≡ total ws
  unfolding step_at
  inside_goes waiting e inside = absurd (false≢true inside)
  inside_goes locked e inside = goes locked _ e refl
  inside_goes (walked c) e inside = goes (walked c) _ e refl
  inside_goes (written answer) e inside = goes (written answer) _ e refl
  inside_goes (left answer) e inside = absurd (false≢true inside)

  unchanged : ◌≡◌ {A = List Caller × Machine} (set ws i w, m) (ws, m)
  unchanged = λ n. (set_same ws i w here n, m)

  taken-Moves :
      (o : Option ℕ)
      → w.stage ≡ waiting
      → Moves ws m (set ws i (taken i w m o).0, (taken i w m o).1)
  taken-Moves none e = inr (goes waiting _ e refl)
  taken-Moves (some j) e = inl unchanged

  pub step-Moves :
      (s : Stage) → w.stage ≡ s → Moves ws m (set ws i (step_at s i w m).0, (step_at s i w m).1)
  unfolding step_at
  step-Moves waiting e = taken-Moves (holder m w.bucket) e
  step-Moves locked e = inr (inside_goes locked e refl)
  step-Moves (walked c) e = inr (inside_goes (walked c) e refl)
  step-Moves (written answer) e = inr (inside_goes (written answer) e refl)
  step-Moves (left answer) e = inl unchanged

  pub here_moved : one_move i ws m ≡ (set ws i (step_at w.stage i w m).0, (step_at w.stage i w m).1)
  unfolding one_move
  here_moved = ap (moved i ws m) here

  -- Why a step changes nothing: the thread has left, or another one holds the lock.
  taken_stuck :
      (o : Option ℕ)
      → w.stage ≡ waiting
      → holder m w.bucket ≡ o
      → total (set ws i (taken i w m o).0) ≡ total ws
      → (j : ℕ) × (holder m w.bucket ≡ some j)
  taken_stuck none e free same =
      absurd (omega (arith, goes waiting (record w { stage = locked }) e refl, same))
  taken_stuck (some j) e busy same = (j, busy)

  pub step_stuck :
      (s : Stage)
      → w.stage ≡ s
      → total (set ws i (step_at s i w m).0) ≡ total ws
      → (is_left s ≡ true) ⊎ ((j : ℕ) × (holder m w.bucket ≡ some j))
  unfolding step_at
  step_stuck waiting e same = inr (taken_stuck (holder m w.bucket) e refl same)
  step_stuck locked e same = absurd (omega (arith, inside_goes locked e refl, same))
  step_stuck (walked c) e same = absurd (omega (arith, inside_goes (walked c) e refl, same))
  step_stuck (written answer) e same =
      absurd (omega (arith, inside_goes (written answer) e refl, same))
  step_stuck (left answer) e same = inl refl
