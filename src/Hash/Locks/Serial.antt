-- ===== src/Hash/Locks/Serial.antt =====
-- The steps of the threads in the operations of kernel/kv_hash.c come to the same as whole calls,
-- one after another.
use kvstore_lkm.Prelude.{
  ℕ, zero, suc, ◌≡◌, refl, sym, ap, ◌∙◌, Option, none, some, List, [], ◌∷◌, ◌++◌, get_or, set,
}
use mathlib.Core.List.{map}
use mathlib.Core.Option.{some_inj}
use kvstore_lkm.Hash.Chain.{Chain}
use kvstore_lkm.Hash.Locks.{
  TableRequest, section_of, Stage, waiting, locked, walked, written, left, Answer, Caller, Machine,
  holder, taken, step_at, caller_at, moved, one_move, moves,
}
use kvstore_lkm.Hash.Locks.Safe.{Inv}
use kvstore_lkm.Hash.Locks.Invariant.{one_move-Inv}

-- A call as a whole: it is still to come, or it has its answer.
pub record Call : Type 0 where
  pub request : TableRequest
  pub bucket : ℕ
  pub answer : Option Answer

abbrev pub answered : Stage → Option Answer
answered waiting = none
answered locked = none
answered (walked c) = none
answered (written answer) = some answer
answered (left answer) = some answer

abbrev pub view : Caller → Call
view w = record { request = w.request; bucket = w.bucket; answer = answered w.stage }

abbrev call_at : Caller → Stage → Call
call_at w s = record { request = w.request; bucket = w.bucket; answer = answered s }

abbrev pub run_call : Call → List Chain → Option Answer → Call × List Chain
run_call c chains (some answer) = (c, chains)
run_call c chains none =
    let (answer, chain) = section_of c.request (get_or chains c.bucket []) in
    (record c { answer = some answer }, set chains c.bucket chain)

-- The call with this number runs as a whole.
unfoldable pub whole_call : ℕ → List Call → List Chain → List Call × List Chain
unfolding section_of get_or set
whole_call i [] chains = ([], chains)
whole_call zero (c ∷ cs) chains =
    let (c', chains') = run_call c chains c.answer in (c' ∷ cs, chains')
whole_call (suc i) (c ∷ cs) chains =
    let (cs', chains') = whole_call i cs chains in (c ∷ cs', chains')

unfoldable pub whole_calls : List ℕ → List Call → List Chain → List Call × List Chain
whole_calls [] cs chains = (cs, chains)
whole_calls (i ∷ is) cs chains =
    let (cs', chains') = whole_call i cs chains in whole_calls is cs' chains'

-- The first list is the second with some items left out.
pub data Part : List ℕ → List ℕ → Type 0 where
  nil : Part [] []
  skip : {is js : List ℕ} (i : ℕ) → Part js is → Part js (i ∷ is)
  keep : {is js : List ℕ} (i : ℕ) → Part js is → Part (i ∷ js) (i ∷ is)

-- A step that shows nothing, and the step that is the call.
view_same :
    (ws : List Caller) (i : ℕ) (w w' : Caller)
    → caller_at i ws ≡ some w
    → view w' ≡ view w
    → map view (set ws i w') ≡ map view ws
unfolding caller_at set
view_same [] i w w' h e = refl
view_same (x ∷ ws) zero w w' h e =
    let x_is : x ≡ w = some_inj.0 h in ap (λ (v : Call). v ∷ map view ws) (e ∙ ap view (sym x_is))
view_same (x ∷ ws) (suc i) w w' h e = ap (λ r. view x ∷ r) (view_same ws i w w' h e)

run_call_lem :
    (w : Caller) (c : Chain) (chains : List Chain)
    → w.stage ≡ walked c
    → c ≡ get_or chains w.bucket []
    → run_call (view w) chains (answered w.stage) ≡ (
      view (record w { stage = written (section_of w.request c).0 }),
      set chains w.bucket (section_of w.request c).1,
    )
run_call_lem w c chains s e =
    ap (λ t. run_call (view w) chains (answered t)) s
    ∙ ap
        (λ d. (
          view (record w { stage = written (section_of w.request d).0 }),
          set chains w.bucket (section_of w.request d).1,
        ))
        (sym e)

view_call :
    (ws : List Caller) (i : ℕ) (w : Caller) (c : Chain) (chains : List Chain)
    → caller_at i ws ≡ some w
    → w.stage ≡ walked c
    → c ≡ get_or chains w.bucket []
    → let (answer, c') = section_of w.request c in
      whole_call i (map view ws) chains
      ≡ (map view (set ws i (record w { stage = written answer })), set chains w.bucket c')
unfolding caller_at set whole_call
view_call [] i w c chains h s e = cc
view_call (x ∷ ws) zero w c chains h s e =
    let x_is : x ≡ w = some_inj.0 h in
    ap
      (λ (y : Caller). (
        (run_call (view y) chains (answered y.stage)).0 ∷ map view ws,
        (run_call (view y) chains (answered y.stage)).1,
      ))
      x_is
    ∙ ap (λ (r : Call × List Chain). (r.0 ∷ map view ws, r.1)) (run_call_lem w c chains s e)
view_call (x ∷ ws) (suc i) w c chains h s e =
    ap (λ (r : List Call × List Chain). (view x ∷ r.0, r.1)) (view_call ws i w c chains h s e)

-- What a step of a thread comes to: nothing, or its call.
record Comes (i : ℕ) (cs : List Call) (chains : List Chain) (r : List Caller × Machine)
    : Type 0 where
  order : List ℕ
  part : Part order (i ∷ [])
  runs : whole_calls order cs chains ≡ (map view r.0, r.1.chains)

module _ {ws : List Caller} {m : Machine} (inv : Inv ws m) (i : ℕ) where
  nothing :
      (ws' : List Caller) (m' : Machine)
      → map view ws' ≡ map view ws
      → m'.chains ≡ m.chains
      → Comes i (map view ws) m.chains (ws', m')
  unfolding whole_calls
  nothing ws' m' same same' = record {
    order = [];
    part = skip i nil;
    runs = λ n. (sym same n, sym same' n);
  }

  taken_nothing :
      (w : Caller) (o : Option ℕ)
      → caller_at i ws ≡ some w
      → w.stage ≡ waiting
      → Comes i (map view ws) m.chains (set ws i (taken i w m o).0, (taken i w m o).1)
  taken_nothing w none here s = nothing _ _ (view_same ws i w _ here (ap (call_at w) (sym s))) refl
  taken_nothing w (some j) here s = nothing _ _ (view_same ws i w w here refl) refl

  step-Comes :
      (w : Caller) (s : Stage)
      → caller_at i ws ≡ some w
      → w.stage ≡ s
      → Comes i (map view ws) m.chains (set ws i (step_at s i w m).0, (step_at s i w m).1)
  unfolding step_at whole_calls
  step-Comes w waiting here s = taken_nothing w (holder m w.bucket) here s
  step-Comes w locked here s = nothing _ _ (view_same ws i w _ here (ap (call_at w) (sym s))) refl
  step-Comes w (walked c) here s = record {
    order = i ∷ [];
    part = keep i nil;
    runs = view_call ws i w c m.chains here s ((inv.safe i w here).fresh c s);
  }
  step-Comes w (written answer) here s =
      nothing _ _ (view_same ws i w _ here (ap (call_at w) (sym s))) refl
  step-Comes w (left answer) here s = nothing _ _ (view_same ws i w w here refl) refl

  moved-Comes :
      (o : Option Caller) → caller_at i ws ≡ o → Comes i (map view ws) m.chains (moved i ws m o)
  moved-Comes none e = nothing ws m refl refl
  moved-Comes (some w) e = step-Comes w w.stage e refl

  move-Comes : Comes i (map view ws) m.chains (one_move i ws m)
  unfolding one_move
  move-Comes = moved-Comes (caller_at i ws) refl

whole_calls-append :
    (xs ys : List ℕ) (cs : List Call) (chains : List Chain)
    → whole_calls (xs ++ ys) cs chains
      ≡ whole_calls ys (whole_calls xs cs chains).0 (whole_calls xs cs chains).1
unfolding whole_calls
whole_calls-append [] ys cs chains = refl
whole_calls-append (i ∷ xs) ys cs chains =
    whole_calls-append xs ys (whole_call i cs chains).0 (whole_call i cs chains).1

pub Part-then :
    {xs : List ℕ} (i : ℕ) (ys is : List ℕ)
    → Part xs (i ∷ [])
    → Part ys is
    → Part (xs ++ ys) (i ∷ is)
Part-then i ys is (skip j nil) p = skip i p
Part-then i ys is (keep j nil) p = keep i p

-- The steps come to whole calls, in the order of some of the steps.
pub record Serial (is : List ℕ) (ws : List Caller) (m : Machine) : Type 0 where
  pub order : List ℕ
  pub part : Part order is
  pub runs :
      whole_calls order (map view ws) m.chains
      ≡ (map view (moves is ws m).0, (moves is ws m).1.chains)

pub moves-Serial : (is : List ℕ) (ws : List Caller) (m : Machine) → Inv ws m → Serial is ws m
unfolding moves
moves-Serial [] ws m inv = record { order = []; part = nil; runs = unfold whole_calls in refl }
moves-Serial (i ∷ is) ws m inv =
    let first = move-Comes inv i in
    let (ws', m') = one_move i ws m in
    let rest = moves-Serial is (one_move i ws m).0 (one_move i ws m).1 (one_move-Inv i inv) in
    record {
      order = first.order ++ rest.order;
      part = Part-then i rest.order is first.part rest.part;
      runs =
          whole_calls-append first.order rest.order (map view ws) m.chains
          ∙ ap (λ (r : List Call × List Chain). whole_calls rest.order r.0 r.1) first.runs
          ∙ rest.runs;
    }
