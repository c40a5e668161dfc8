-- ===== src/Device/Locked/Advance.antt =====
-- Each step of a worker in the handlers of kernel/kvlkm.c comes to nothing, or to the next section of
-- its thread.
use kvstore_lkm.Prelude.{
  ℕ, ◌≡◌, refl, sym, ap, ◌∙◌, inl, inr, Option, none, some, List, [], get_or, set, neg,
}
use mathlib.Core.List.{map}
use mathlib.Core.Path.{subst}
use kvstore_lkm.Hash.Chain.{Chain}
use kvstore_lkm.Hash.Table.{Hashing, Kernel, enomem}
use kvstore_lkm.Hash.Locks.{
  TableRequest, Answer, Stage, waiting, locked, walked, written, left, Machine, holder, taken,
  step_at, section_of,
}
use kvstore_lkm.Hash.Locks.Safe.{is_inside}
use kvstore_lkm.Hash.Locks.Invariant.{step-Keeps, taken-Keeps}
use kvstore_lkm.Hash.Locks.Serial.{skip, nil}
use kvstore_lkm.Device.Interleave.{section_at, interleave}
use kvstore_lkm.Device.Locked.{
  request_of, asked, resume, Worker, enters, work_at, worker_at, worked, one_work,
}
use kvstore_lkm.Device.Locked.Sections.{Resumes, section-Resumes, section-Fails}
use kvstore_lkm.Device.Locked.Steps.{view_at, view, key_kept, Working, Advances}
use kvstore_lkm.Device.Locked.Turn.{
  WorkerTurn, us, at_us, hidden, shown, renews, seen_at, called, runs_now,
}

module _ ⦃hashing : Hashing⦄ {bits : ℕ} {ws : List Worker} {m : Machine} {k : Kernel} {i : ℕ}
    {w : Worker} (turn : WorkerTurn bits ws m k i w) where
  fails :
      w.stage ≡ waiting
      → request_of w.thread ≡ none
      → Advances bits i
          (map view ws)
          k
          (set ws i (record w { thread = resume w.thread (neg enomem, []) }), m)
  fails e absent =
      let t = w.thread in
      let w' : Worker = record w { thread = resume t (neg enomem, []) } in
      let now =
        runs_now turn ((neg enomem, []), m.chains) (seen_at turn waiting e)
          (section-Fails t m.chains k turn.ready t.phase t.handler absent) in
      shown turn w' m (renews turn w' (ap is_inside e) e (key_kept t.phase t.handler t _)) (inl e)
        (now.resumed ∙ sym (ap (view_at w'.thread) e)) now.buckets now.same_bits

  tries :
      (o : Option ℕ) (q : TableRequest)
      → w.stage ≡ waiting
      → holder m (us turn).bucket ≡ o
      → request_of w.thread ≡ some q
      → let r = taken i (us turn) m o in
        Advances bits i (map view ws) k (set ws i (record w { stage = r.0.stage }), r.1)
  tries none q e free there =
      hidden turn _ _ (taken-Keeps turn.working.callers i (us turn) (at_us turn) none e free)
        (inr (q, there)) (seen_at turn waiting e) refl
  tries (some j) q e busy there =
      hidden turn _ _ (taken-Keeps turn.working.callers i (us turn) (at_us turn) (some j) e busy)
        (inr (q, there)) refl refl

  writes :
      (c : Chain)
      → w.stage ≡ walked c
      → Advances bits i
          (map view ws)
          k
          (set ws i (work_at bits (walked c) i w m).0, (work_at bits (walked c) i w m).1)
  unfolding work_at step_at
  writes c e =
      let t = w.thread in
      let (q, there) = called turn (ap is_inside e) in
      let section = section_of (us turn).request c in
      let section_is : section ≡ section_of q (get_or m.chains (us turn).bucket []) =
        ap (λ r. section_of (asked r) c) there
        ∙ ap (section_of q) ((turn.working.callers.safe i (us turn) (at_us turn)).fresh c e) in
      let put : Answer × Chain → ℕ → Answer × List Chain = λ a b. (a.0, set m.chains b a.1) in
      let same =
        ap
          (λ n.
            let b = hashing.hash_min t.message.key n in put (section_of q (get_or m.chains b [])) b)
          turn.bits_is
        ∙ ap (λ a. put a (us turn).bucket) (sym section_is) in
      let now = runs_now turn (put section (us turn).bucket) (seen_at turn (walked c) e) (
        subst (λ s. Resumes k.table.bits t.phase t.handler t s (section_at t.phase t.handler t k))
          same (section-Resumes t m.chains k turn.ready t.phase t.handler q there)) in
      shown turn _ _ (step-Keeps turn.working.callers i (us turn) (at_us turn) (walked c) e)
        (inr (q, there)) now.resumed now.buckets now.same_bits

  enters_advances :
      (o : Option TableRequest)
      → w.stage ≡ waiting
      → request_of w.thread ≡ o
      → let r = enters bits i w m o in Advances bits i (map view ws) k (set ws i r.0, r.1)
  unfolding step_at
  enters_advances none e absent = fails e absent
  enters_advances (some q) e there = tries (holder m (us turn).bucket) q e refl there

  step_advances :
      (s : Stage)
      → w.stage ≡ s
      → let r = work_at bits s i w m in Advances bits i (map view ws) k (set ws i r.0, r.1)
  unfolding work_at step_at
  step_advances waiting e = enters_advances (request_of w.thread) e refl
  step_advances locked e =
      hidden turn _ _ (step-Keeps turn.working.callers i (us turn) (at_us turn) locked e)
        (inr (called turn (ap is_inside e))) (seen_at turn locked e) refl
  step_advances (walked c) e = writes c e
  step_advances (written answer) e =
      hidden turn _ _ (step-Keeps turn.working.callers i (us turn) (at_us turn) (written answer) e)
        (inr (called turn (ap is_inside e))) (seen_at turn (written answer) e) refl
  step_advances (left answer) e =
      let t = w.thread in
      let w' : Worker = record { thread = resume t answer; stage = waiting } in
      hidden turn w' m (renews turn w' (ap is_inside e) refl (key_kept t.phase t.handler t answer))
        (inl refl) (seen_at turn (left answer) e) refl

module _ ⦃hashing : Hashing⦄ {bits : ℕ} {ws : List Worker} {m : Machine}
    (working : Working bits ws m) (k : Kernel) (ready : k.table.buckets ≡ some m.chains)
    (bits_is : k.table.bits ≡ bits) (i : ℕ) where
  worked_advances :
      (o : Option Worker)
      → worker_at i ws ≡ o
      → Advances bits i (map view ws) k (worked bits i ws m o)
  unfolding interleave
  worked_advances none e = record {
    working = working;
    order = [];
    part = skip i nil;
    kernel = k;
    runs = refl;
    buckets = ready;
    same_bits = bits_is;
  }
  worked_advances (some w) e =
      step_advances (record { working = working; ready = ready; bits_is = bits_is; here = e })
        w.stage refl

  pub one_work-Advances : Advances bits i (map view ws) k (one_work bits i ws m)
  unfolding one_work
  one_work-Advances = worked_advances (worker_at i ws) refl
