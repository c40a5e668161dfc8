-- ===== src/Hash/Locks/Rounds.antt =====
-- Rounds in which every thread in the operations of kernel/kv_hash.c has a turn, and that they end all
-- calls.
use kvstore_lkm.Prelude.{
  ℕ, zero, suc, ◌+◌, ◌≤◌, ◌<◌, ◌≡◌, refl, sym, ap, ◌∙◌, ◌⊎◌, inl, inr, Bool, true, false,
  Bool-cases, ◌||◌, Option, Option-cases, none, some, List, [], ◌∷◌, ◌++◌, flatten, length,
  length-set, arith, ◌==◌,
}
use mathlib.Core.Bool.{false≢true}
use mathlib.Core.Option.{some_inj}
use mathlib.Core.Path.{subst}
use kvstore_lkm.Hash.Locks.{
  Stage, waiting, locked, walked, written, left, Caller, Machine, step_at, caller_at, moved,
  one_move, moves,
}
use kvstore_lkm.Hash.Locks.Safe.{Inv}
use kvstore_lkm.Hash.Locks.Invariant.{one_move-Inv}
use kvstore_lkm.Hash.Locks.Progress.{
  cost, total, Moves, is_left, inside_goes, step-Moves, here_moved, step_stuck,
}

any_move : (ws : List Caller) (m : Machine) (i : ℕ) → Moves ws m (one_move i ws m)
any_move ws m i = elim (Option-cases (caller_at i ws)) [
  | inl absent ↦ inl (unfold one_move in ap (moved i ws m) absent)
  | inr (w, here) ↦
      subst (Moves ws m) (sym (here_moved ws m i w here)) (step-Moves ws m i w here w.stage refl)
]

moves_less : (is : List ℕ) (ws : List Caller) (m : Machine) → total (moves is ws m).0 ≤ total ws
unfolding moves
moves_less [] ws m = omega arith
moves_less (i ∷ is) ws m =
    let rest = moves_less is (one_move i ws m).0 (one_move i ws m).1 in
    elim (any_move ws m i) [
      | inl same ↦
          let first = ap (λ (r : List Caller × Machine). total r.0) same in
          omega (arith, rest, first)
      | inr less ↦ omega (arith, rest, less)
    ]

-- The thread has a turn.
abbrev pub names : ℕ → List ℕ → Bool
names i [] = false
names i (j ∷ is) = i == j || names i is

-- If a run makes no step, no thread that it names can make one.
quiet :
    (is : List ℕ) (ws : List Caller) (m : Machine)
    → total (moves is ws m).0 ≡ total ws
    → (i : ℕ) → names i is ≡ true
    → one_move i ws m ≡ (ws, m)
unfolding moves
quiet [] ws m same i named = absurd (false≢true named)
quiet (j ∷ is) ws m same i named = elim (any_move ws m j) [
  | inl still ↦
      let rest : total (moves is ws m).0 ≡ total ws =
        ap (λ (r : List Caller × Machine). total (moves is r.0 r.1).0) (sym still) ∙ same in
      elim (Bool-cases (i == j)) [
        | inl this ↦
            let key : j ≡ i = ground (arith, this) in
            subst (λ n. one_move n ws m ≡ (ws, m)) key still
        | inr different ↦ quiet is ws m rest i (ground (arith, named, different))
      ]
  | inr less ↦
      absurd (omega (arith, less, same, moves_less is (one_move j ws m).0 (one_move j ws m).1))
]

caller_at-lt : (ws : List Caller) (i : ℕ) (w : Caller) → caller_at i ws ≡ some w → i < length ws
unfolding caller_at
caller_at-lt [] i w h = ground (arith, h)
caller_at-lt (x ∷ ws) zero w h = omega arith
caller_at-lt (x ∷ ws) (suc i) w h = omega (arith, caller_at-lt ws i w h)

-- Every thread has left.
abbrev pub AllLeft : List Caller → Type 0
AllLeft ws = (i : ℕ) (w : Caller) → caller_at i ws ≡ some w → is_left w.stage ≡ true

all_quiet-AllLeft :
    {ws : List Caller} {m : Machine}
    → Inv ws m
    → ((i : ℕ) → i < length ws → one_move i ws m ≡ (ws, m))
    → AllLeft ws
all_quiet-AllLeft {ws} {m} inv still i w here =
    let same = λ (j : ℕ) (u : Caller) (there : caller_at j ws ≡ some u).
      ap (λ (r : List Caller × Machine). total r.0)
        (sym (here_moved ws m j u there) ∙ still j (caller_at-lt ws j u there)) in
    elim (step_stuck ws m i w here w.stage refl (same i w here)) [
      | inl gone ↦ gone
      | inr (j, busy) ↦
          let (u, there, bucket, inside) = inv.held w.bucket j busy in
          absurd (omega (arith, inside_goes ws m j u there u.stage refl inside, same j u there))
    ]

left_cost : (s : Stage) → is_left s ≡ true → cost s ≡ 0
left_cost waiting h = absurd (false≢true h)
left_cost locked h = absurd (false≢true h)
left_cost (walked c) h = absurd (false≢true h)
left_cost (written answer) h = absurd (false≢true h)
left_cost (left answer) h = refl

AllLeft-total : (ws : List Caller) → AllLeft ws → total ws ≡ 0
unfolding caller_at
AllLeft-total [] h = refl
AllLeft-total (w ∷ ws) h =
    omega (arith, left_cost w.stage (h 0 w refl), AllLeft-total ws (λ i u there. h (suc i) u there))

zero_left : (s : Stage) → cost s ≡ 0 → is_left s ≡ true
zero_left waiting h = absurd (omega (arith, h))
zero_left locked h = absurd (omega (arith, h))
zero_left (walked c) h = absurd (omega (arith, h))
zero_left (written answer) h = absurd (omega (arith, h))
zero_left (left answer) h = refl

pub total-AllLeft : (ws : List Caller) → total ws ≡ 0 → AllLeft ws
unfolding caller_at
total-AllLeft [] h i w there = ground (arith, there)
total-AllLeft (x ∷ ws) h zero w there =
    let cost_is : cost x.stage ≡ cost w.stage =
      ap (λ (y : Caller). cost y.stage) (some_inj.0 there) in
    zero_left w.stage (omega (arith, h, cost_is))
total-AllLeft (x ∷ ws) h (suc i) w there = total-AllLeft ws (omega (arith, h)) i w there

moves-Inv :
    (is : List ℕ) {ws : List Caller} {m : Machine}
    → Inv ws m
    → Inv (moves is ws m).0 (moves is ws m).1
unfolding moves
moves-Inv [] inv = inv
moves-Inv (i ∷ is) inv = moves-Inv is (one_move-Inv i inv)

-- The run names every one of so many threads.
abbrev pub NamesAll : ℕ → List ℕ → Type 0
NamesAll count is = (i : ℕ) → i < count → names i is ≡ true

-- A round in which every thread has a turn makes a step, or all have left.
round_moves :
    (is : List ℕ) {ws : List Caller} {m : Machine}
    → Inv ws m
    → NamesAll (length ws) is
    → (total (moves is ws m).0 + 1 ≤ total ws) ⊎ (total ws ≡ 0)
round_moves is {ws} {m} inv all = elim (Bool-cases (total (moves is ws m).0 == total ws)) [
  | inl same ↦
      let still = quiet is ws m (ground (arith, same)) in
      inr (AllLeft-total ws (all_quiet-AllLeft inv (λ i few. still i (all i few))))
  | inr different ↦ inl (ground (arith, different, moves_less is ws m))
]

length-moved :
    (ws : List Caller) (m : Machine) (i : ℕ) (o : Option Caller)
    → length (moved i ws m o).0 ≡ length ws
length-moved ws m i none = refl
length-moved ws m i (some w) = length-set ws i (step_at w.stage i w m).0

length-moves : (is : List ℕ) (ws : List Caller) (m : Machine) → length (moves is ws m).0 ≡ length ws
unfolding moves one_move
length-moves [] ws m = refl
length-moves (i ∷ is) ws m =
    length-moves is (one_move i ws m).0 (one_move i ws m).1 ∙ length-moved ws m i (caller_at i ws)

moves-append :
    (xs ys : List ℕ) (ws : List Caller) (m : Machine)
    → moves (xs ++ ys) ws m ≡ moves ys (moves xs ws m).0 (moves xs ws m).1
unfolding moves
moves-append [] ys ws m = refl
moves-append (i ∷ xs) ys ws m = moves-append xs ys (one_move i ws m).0 (one_move i ws m).1

-- Rounds, each of which names every thread.
abbrev pub AllRounds : ℕ → List (List ℕ) → Type 0
AllRounds count [] = Unit
AllRounds count (r ∷ rounds) = NamesAll count r × AllRounds count rounds

pub rounds_end :
    (rounds : List (List ℕ)) {ws : List Caller} {m : Machine}
    → Inv ws m
    → AllRounds (length ws) rounds
    → total ws ≤ length rounds
    → total (moves (flatten rounds) ws m).0 ≡ 0
unfolding moves flatten
rounds_end [] inv all few = omega (arith, few)
rounds_end (r ∷ rounds) {ws} {m} inv (now, later) few =
    let (ws', m') = moves r ws m in
    let fewer = moves_less r ws m in
    let enough : total (moves r ws m).0 ≤ length rounds = elim (round_moves r inv now) [
      | inl less ↦ omega (arith, few, less)
      | inr ended ↦ omega (arith, ended, fewer)
    ] in
    let all = subst (λ n. AllRounds n rounds) (sym (length-moves r ws m)) later in
    ap (λ (s : List Caller × Machine). total s.0) (moves-append r (flatten rounds) ws m)
    ∙ rounds_end rounds (moves-Inv r inv) all enough
