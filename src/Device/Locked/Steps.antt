-- ===== src/Device/Locked/Steps.antt =====
-- The steps of workers in the handlers of kernel/kvlkm.c and at the locks of kernel/kv_hash.c, each
-- against the sections of Device/Interleave.
use kvstore_lkm.Prelude.{ℕ, zero, suc, ◌≡◌, refl, ap, ◌∙◌, ◌⊎◌, some, List, [], ◌∷◌, set, arith}
use mathlib.Core.List.{map}
use mathlib.Core.Option.{some_inj}
use mathlib.Core.Path.{subst}
use kvstore_lkm.Hash.Table.{Hashing, Kernel}
use kvstore_lkm.Hash.Locks.{
  TableRequest, Answer, Stage, waiting, locked, walked, written, left, Machine, caller_at,
}
use kvstore_lkm.Hash.Locks.Safe.{Inv}
use kvstore_lkm.Hash.Locks.Serial.{Part}
use kvstore_lkm.Device.Interleave.{
  Phase, start, checked, done, Handler, inserting, updating, getting, deleting, Thread,
  next_section, one_step, interleave,
}
use kvstore_lkm.Device.Handlers.{put_value}
use kvstore_lkm.Device.Locked.{request_of, resume, resume_at, Worker, caller_of, worker_at}

abbrev pub view_at : Thread → Stage → Thread
view_at t waiting = t
view_at t locked = t
view_at t (walked c) = t
view_at t (written answer) = resume t answer
view_at t (left answer) = resume t answer

-- The worker as a thread that runs its sections whole: it has the answer once it is written.
abbrev pub view : Worker → Thread
view w = view_at w.thread w.stage

-- In front of its lock, or in a call that it has.
abbrev pub Busy : Worker → Type 0
Busy w = (w.stage ≡ waiting) ⊎ ((q : TableRequest) × (request_of w.thread ≡ some q))

abbrev pub AllBusy : List Worker → Type 0
AllBusy [] = Unit
AllBusy (w ∷ ws) = Busy w × AllBusy ws

pub AllBusy-set :
    (ws : List Worker) (i : ℕ) (w : Worker) → AllBusy ws → Busy w → AllBusy (set ws i w)
unfolding set
AllBusy-set [] i w all busy = all
AllBusy-set (x ∷ ws) zero w (first, all) busy = (busy, all)
AllBusy-set (x ∷ ws) (suc i) w (first, all) busy = (first, AllBusy-set ws i w all busy)

pub key_kept :
    (p : Phase) (h : Handler) (t : Thread) (a : Answer)
    → (resume_at p h t a).message.key ≡ t.message.key
unfolding resume_at put_value
key_kept start inserting t a = ground arith
key_kept start updating t a = ground arith
key_kept start getting t a = ground arith
key_kept start deleting t a = ground arith
key_kept checked h t a = ground arith
key_kept done h t a = refl

module _ ⦃hashing : Hashing⦄ (bits : ℕ) where
  pub Busy-at :
      (ws : List Worker) (i : ℕ) (w : Worker) → worker_at i ws ≡ some w → AllBusy ws → Busy w
  unfolding worker_at
  Busy-at [] i w h all = cc
  Busy-at (x ∷ ws) zero w h (first, all) = subst Busy (some_inj.0 h) first
  Busy-at (x ∷ ws) (suc i) w h (first, all) = Busy-at ws i w h all

  pub map-set :
      {B : Type 0} (f : Worker → B) (ws : List Worker) (i : ℕ) (w : Worker)
      → map f (set ws i w) ≡ set (map f ws) i (f w)
  unfolding set
  map-set f [] i w = refl
  map-set f (x ∷ ws) zero w = refl
  map-set f (x ∷ ws) (suc i) w = ap (λ r. f x ∷ r) (map-set f ws i w)

  pub caller_here :
      (ws : List Worker) (i : ℕ) (w : Worker)
      → worker_at i ws ≡ some w
      → caller_at i (map (caller_of bits) ws) ≡ some (caller_of bits w)
  unfolding worker_at caller_at
  caller_here [] i w h = cc
  caller_here (x ∷ ws) zero w h = ap (λ y. some (caller_of bits y)) (some_inj.0 h)
  caller_here (x ∷ ws) (suc i) w h = caller_here ws i w h

  pub view_same :
      (ws : List Worker) (i : ℕ) (w w' : Worker)
      → worker_at i ws ≡ some w
      → view w ≡ view w'
      → map view ws ≡ map view (set ws i w')
  unfolding worker_at set
  view_same [] i w w' h e = refl
  view_same (x ∷ ws) zero w w' h e = ap (λ v. v ∷ map view ws) (ap view (some_inj.0 h) ∙ e)
  view_same (x ∷ ws) (suc i) w w' h e = ap (λ r. view x ∷ r) (view_same ws i w w' h e)

  pub one_step-view :
      (ws : List Worker) (i : ℕ) (w w' : Worker) (k : Kernel)
      → worker_at i ws ≡ some w
      → (next_section (view w) k).0 ≡ view w'
      → one_step i (map view ws) k ≡ (map view (set ws i w'), (next_section (view w) k).1)
  unfolding worker_at set one_step
  one_step-view [] i w w' k h e = cc
  one_step-view (x ∷ ws) zero w w' k h e =
      ap (λ (y : Worker). ((next_section (view y) k).0 ∷ map view ws, (next_section (view y) k).1))
        (some_inj.0 h)
      ∙ ap (λ (v : Thread). (v ∷ map view ws, (next_section (view w) k).1)) e
  one_step-view (x ∷ ws) (suc i) w w' k h e =
      ap (λ (r : List Thread × Kernel). (view x ∷ r.0, r.1)) (one_step-view ws i w w' k h e)

  -- The workers hold their locks as they should, and are in calls that they have.
  pub record Working (ws : List Worker) (m : Machine) : Type 0 where
    pub callers : Inv (map (caller_of bits) ws) m
    pub busy : AllBusy ws

  -- A step comes to nothing, or to the next section of the thread.
  pub record Advances (i : ℕ) (ts : List Thread) (k : Kernel) (r : List Worker × Machine)
      : Type 0 where
    pub working : Working r.0 r.1
    pub order : List ℕ
    pub part : Part order (i ∷ [])
    pub kernel : Kernel
    pub runs : interleave order ts k ≡ (map view r.0, kernel)
    pub buckets : kernel.table.buckets ≡ some r.1.chains
    pub same_bits : kernel.table.bits ≡ bits
