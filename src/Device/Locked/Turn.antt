-- ===== src/Device/Locked/Turn.antt =====
-- The turn of a worker in the handlers of kernel/kvlkm.c and at the locks of kernel/kv_hash.c, and
-- what a step of it that is hidden, or is a section of its thread, does to all of them.
use kvstore_lkm.Prelude.{
  ℕ, ◌≡◌, sym, ap, ◌∙◌, inl, inr, true, false, some, List, [], ◌∷◌, set, ◌<◌, length,
}
use mathlib.Core.Bool.{false≢true}
use mathlib.Core.List.{map}
use mathlib.Core.Path.{subst}
use kvstore_lkm.Hash.Chain.{Chain}
use kvstore_lkm.Hash.Table.{Hashing, Kernel}
use kvstore_lkm.Hash.Locks.{
  TableRequest, Answer, Stage, waiting, walked, Caller, Machine, caller_at,
}
use kvstore_lkm.Hash.Locks.Safe.{Inv, is_inside, Keeps, Keeps-Inv, stays}
use kvstore_lkm.Hash.Locks.Serial.{skip, keep, nil}
use kvstore_lkm.Device.Interleave.{next_section, section_at, interleave}
use kvstore_lkm.Device.Locked.{request_of, Worker, caller_of, worker_at}
use kvstore_lkm.Device.Locked.Sections.{Resumes}
use kvstore_lkm.Device.Locked.Steps.{
  view_at, view, Busy, AllBusy-set, Busy-at, map-set, caller_here, view_same, one_step-view,
  Working, Advances,
}

-- The turn of a worker: who it is, and how the workers, their table and the kernel stand.
pub record WorkerTurn ⦃hashing : Hashing⦄ (bits : ℕ) (ws : List Worker) (m : Machine) (k : Kernel)
    (i : ℕ) (w : Worker) : Type 0 where
  pub working : Working bits ws m
  pub ready : k.table.buckets ≡ some m.chains
  pub bits_is : k.table.bits ≡ bits
  pub here : worker_at i ws ≡ some w

module _ ⦃hashing : Hashing⦄ {bits : ℕ} {ws : List Worker} {m : Machine} {k : Kernel} {i : ℕ}
    {w : Worker} (turn : WorkerTurn bits ws m k i w) where
  abbrev pub us : Caller
  us = caller_of bits w

  pub at_us : caller_at i (map (caller_of bits) ws) ≡ some us
  at_us = caller_here bits ws i w turn.here

  still-Working :
      (w' : Worker) (m' : Machine)
      → Keeps i us (caller_of bits w') m m'
      → Busy w'
      → Working bits (set ws i w') m'
  still-Working w' m' keeps busy = record {
    callers =
        subst (λ cs. Inv cs m') (sym (map-set bits (caller_of bits) ws i w'))
          (Keeps-Inv turn.working.callers i us at_us (caller_of bits w') m' keeps);
    busy = AllBusy-set ws i w' turn.working.busy busy;
  }

  -- Nothing that the other threads see.
  pub hidden :
      (w' : Worker) (m' : Machine)
      → Keeps i us (caller_of bits w') m m'
      → Busy w'
      → view w ≡ view w'
      → m'.chains ≡ m.chains
      → Advances bits i (map view ws) k (set ws i w', m')
  unfolding interleave
  hidden w' m' keeps busy same chains = record {
    working = still-Working w' m' keeps busy;
    order = [];
    part = skip i nil;
    kernel = k;
    runs = ap (λ ts. (ts, k)) (view_same bits ws i w w' turn.here same);
    buckets = turn.ready ∙ ap some (sym chains);
    same_bits = turn.bits_is;
  }

  -- The section of the thread.
  pub shown :
      (w' : Worker) (m' : Machine)
      → Keeps i us (caller_of bits w') m m'
      → Busy w'
      → (next_section (view w) k).0 ≡ view w'
      → (next_section (view w) k).1.table.buckets ≡ some m'.chains
      → (next_section (view w) k).1.table.bits ≡ bits
      → Advances bits i (map view ws) k (set ws i w', m')
  unfolding interleave
  shown w' m' keeps busy e chains same = record {
    working = still-Working w' m' keeps busy;
    order = i ∷ [];
    part = keep i nil;
    kernel = (next_section (view w) k).1;
    runs = one_step-view bits ws i w w' k turn.here e;
    buckets = chains;
    same_bits = same;
  }

  -- A worker that is not behind a lock may make another call.
  pub renews :
      (w' : Worker)
      → is_inside w.stage ≡ false
      → w'.stage ≡ waiting
      → w'.thread.message.key ≡ w.thread.message.key
      → Keeps i us (caller_of bits w') m m
  renews w' outside again same_key =
      let before = turn.working.callers.safe i us at_us in
      record {
        safe = record {
          owns = λ inside. absurd (false≢true (sym (ap is_inside again) ∙ inside));
          fresh = λ c e. let no : waiting ≡ walked c = sym again ∙ e in cc;
          in_table =
              subst (λ key. hashing.hash_min key bits < length m.locks) (sym same_key)
                before.in_table;
        };
        frame = λ j u different safe. safe;
        others = λ b j different h. h;
        mine = λ b h.
            absurd
              (false≢true (sym outside ∙ ((stays turn.working.callers i us at_us).mine b h).1));
      }

  pub seen_at : (s : Stage) → w.stage ≡ s → view w ≡ view_at w.thread s
  seen_at s e = ap (view_at w.thread) e

  pub called : is_inside w.stage ≡ true → (q : TableRequest) × (request_of w.thread ≡ some q)
  called inside = elim (Busy-at bits ws i w turn.here turn.working.busy) [
    | inl e ↦ absurd (false≢true (sym (ap is_inside e) ∙ inside))
    | inr there ↦ there
  ]

  -- What a section of the thread leaves, if it runs now.
  pub runs_now :
      (s : Answer × List Chain)
      → view w ≡ w.thread
      → Resumes k.table.bits w.thread.phase w.thread.handler w.thread s
          (section_at w.thread.phase w.thread.handler w.thread k)
      → Resumes bits w.thread.phase w.thread.handler w.thread s (next_section (view w) k)
  unfolding next_section
  runs_now s same r =
      subst (λ v. Resumes bits w.thread.phase w.thread.handler w.thread s (next_section v k))
        (sym same)
        (subst (λ n. Resumes n w.thread.phase w.thread.handler w.thread s (next_section w.thread k))
          turn.bits_is r)
