-- ===== src/Device/Locked/Serial.antt =====
-- All steps of the workers in the handlers of kernel/kvlkm.c and at the locks of kernel/kv_hash.c, as
-- sections of the handlers, one after another, and as steps on a map from keys to values.
use kvstore_lkm.Prelude.{ℕ, ◌≡◌, refl, sym, ap, ◌∙◌, inl, some, List, [], ◌∷◌, ◌++◌, length}
use mathlib.Core.List.{map}
use kvstore_lkm.Hash.Chain.{Chain}
use kvstore_lkm.Hash.Table.{Hashing, Kernel, IsValid}
use kvstore_lkm.Hash.View.{contents, contents_of, home-lt}
use kvstore_lkm.Hash.Locks.{waiting, Machine}
use kvstore_lkm.Hash.Locks.Serial.{Part, nil, Part-then}
use kvstore_lkm.Hash.Locks.Calls.{AllWaiting, free, start-Inv}
use kvstore_lkm.Device.Interleave.{Thread, one_step, interleave}
use kvstore_lkm.Device.Interleave.Promise.{spec_interleave}
use kvstore_lkm.Device.Interleave.Atomic.{interleave-Agrees}
use kvstore_lkm.Device.Locked.{Worker, caller_of, works}
use kvstore_lkm.Device.Locked.Steps.{view, AllBusy, Working}
use kvstore_lkm.Device.Locked.Advance.{one_work-Advances}

-- A thread at the locks: it is in front of its first one.
abbrev pub waits : Thread → Worker
waits t = record { thread = t; stage = waiting }

all_view : (ts : List Thread) → map view (map waits ts) ≡ ts
all_view [] = refl
all_view (t ∷ ts) = ap (λ r. t ∷ r) (all_view ts)

waits-AllBusy : (ts : List Thread) → AllBusy (map waits ts)
waits-AllBusy [] = tt
waits-AllBusy (t ∷ ts) = (inl refl, waits-AllBusy ts)

module _ ⦃hashing : Hashing⦄ where
  interleave-append :
      (xs ys : List ℕ) (ts : List Thread) (k : Kernel)
      → interleave (xs ++ ys) ts k ≡ interleave ys (interleave xs ts k).0 (interleave xs ts k).1
  unfolding interleave
  interleave-append [] ys ts k = refl
  interleave-append (i ∷ xs) ys ts k =
      interleave-append xs ys (one_step i ts k).0 (one_step i ts k).1

  -- The steps come to sections of the threads, in an order of some of the steps.
  record Sections (bits : ℕ) (is : List ℕ) (ws : List Worker) (m : Machine) (k : Kernel)
      : Type 0 where
    order : List ℕ
    part : Part order is
    kernel : Kernel
    runs : interleave order (map view ws) k ≡ (map view (works bits is ws m).0, kernel)
    buckets : kernel.table.buckets ≡ some (works bits is ws m).1.chains
    same_bits : kernel.table.bits ≡ bits

  works-Sections :
      (bits : ℕ) (is : List ℕ) {ws : List Worker} {m : Machine} (k : Kernel)
      → Working bits ws m
      → k.table.buckets ≡ some m.chains
      → k.table.bits ≡ bits
      → Sections bits is ws m k
  unfolding works interleave
  works-Sections bits [] k working ready same = record {
    order = [];
    part = nil;
    kernel = k;
    runs = refl;
    buckets = ready;
    same_bits = same;
  }
  works-Sections bits (i ∷ is) {ws} {m} k working ready same =
      let first = one_work-Advances working k ready same i in
      let rest = works-Sections bits is first.kernel first.working first.buckets first.same_bits in
      record {
        order = first.order ++ rest.order;
        part = Part-then i rest.order is first.part rest.part;
        kernel = rest.kernel;
        runs =
            interleave-append first.order rest.order (map view ws) k
            ∙ ap (λ (r : List Thread × Kernel). interleave rest.order r.0 r.1) first.runs
            ∙ rest.runs;
        buckets = rest.buckets;
        same_bits = rest.same_bits;
      }

  waits-AllWaiting :
      {others : ℕ} {k : Kernel} {bs : List Chain} (valid : IsValid others k bs) (ts : List Thread)
      → AllWaiting (length bs) (map (caller_of k.table.bits) (map waits ts))
  waits-AllWaiting valid [] = tt
  waits-AllWaiting valid (t ∷ ts) = (refl, home-lt valid t.message.key, waits-AllWaiting valid ts)

  -- The threads and the chains are where steps on a map put them, in an order of some of the steps.
  pub record Linear (is : List ℕ) (ts : List Thread) (bs : List Chain) (k : Kernel) : Type 0 where
    pub order : List ℕ
    pub part : Part order is
    pub threads :
        map view (works k.table.bits is (map waits ts) (free bs)).0
        ≡ (spec_interleave order ts (contents k)).0
    pub reads :
        (q : ℕ)
        → contents_of k.table.bits
            (some (works k.table.bits is (map waits ts) (free bs)).1.chains)
            q
          ≡ (spec_interleave order ts (contents k)).1 q

  -- From a valid table, with any number of threads in front of their next call of it, anywhere in
  -- the handlers of insert, update, get and delete, whatever their allocations do, and whatever
  -- steps they take in any order, where taking the lock of a bucket, the walk over its chain, the
  -- write, the release and what the handler makes of the answer are steps of their own: there is an
  -- order of atomic steps on a map from keys to values, a part of the order of the steps, that puts
  -- the threads where they are, with the same messages, counting a call as made once its write is,
  -- and that leaves the map that the chains of the table hold.
  pub works-Linear :
      {others : ℕ} {k : Kernel} {bs : List Chain} (is : List ℕ) (ts : List Thread)
      → IsValid others k bs
      → Linear is ts bs k
  works-Linear {k = k} {bs = bs} is ts valid =
      let bits = k.table.bits in
      let working : Working bits (map waits ts) (free bs) = record {
        callers = start-Inv bs _ (waits-AllWaiting valid ts);
        busy = waits-AllBusy ts;
      } in
      let done = works-Sections bits is k working valid.ready refl in
      let runs = ap (λ us. interleave done.order us k) (sym (all_view ts)) ∙ done.runs in
      let agrees = interleave-Agrees done.order ts valid in
      record {
        order = done.order;
        part = done.part;
        threads = sym (ap (λ (r : List Thread × Kernel). r.0) runs) ∙ agrees.threads;
        reads = λ q.
            (λ n. contents_of (sym done.same_bits n) (sym done.buckets n) q)
            ∙ ap (λ (r : List Thread × Kernel). contents r.1 q) (sym runs)
            ∙ agrees.reads q;
      }
