-- ===== src/Device/Interleave/Atomic.antt =====
-- The critical sections of the handlers of kernel/kvlkm.c keep the promise of atomic steps on a map.
use kvstore_lkm.Prelude.{
  ℕ, zero, suc, ◌≡◌, refl, ap, inl, inr, Option-cases, Option, some, List, [], ◌∷◌, ◌++◌, ℤ, pos,
  negsuc, codes, length, arith,
}
use mathlib.Core.Path.{fun_ext, subst}
use kvstore_lkm.Text.{decimal}
use kvstore_lkm.Message.{KvMessage}
use kvstore_lkm.Hash.Chain.{Chain}
use kvstore_lkm.Hash.Table.{Hashing, kv_store, Kernel, IsValid}
use kvstore_lkm.Hash.Ops.{kv_hash_add}
use kvstore_lkm.Hash.View.{Contents, contents}
use kvstore_lkm.Device.Handlers.{handle_get, handle_delete}
use kvstore_lkm.Device.Spec.{seen, refused, spec_write}
use kvstore_lkm.Device.Meets.{Meets, lookup_seen, lookup_unseen, write_end, added-Meets, looked}
use kvstore_lkm.Device.Meets.Reads.{get-Meets, delete-Meets}
use kvstore_lkm.Device.Interleave.{
  Phase, start, checked, done, Handler, inserting, updating, getting, deleting, Thread, finished,
  failure_of, check_insert, check_update, store_value, ended, section_at, next_section, one_step,
  interleave,
}
use kvstore_lkm.Device.Interleave.Promise.{spec_ended, spec_section, spec_step, spec_interleave}

module _ ⦃hashing : Hashing⦄ where
  -- The threads are the promised ones, and the table is valid and holds the promised map.
  pub record Agrees {A : Type 0} (others : ℕ) (r : A × Kernel) (s : A × Contents) : Type 0 where
    pub threads : r.0 ≡ s.0
    pub chains : List Chain
    pub valid : IsValid others r.1 chains
    pub reads : (q : ℕ) → contents r.1 q ≡ s.1 q

  ended-Agrees :
      {others : ℕ} (t : Thread) (r : ℤ × KvMessage × Kernel) (s : KvMessage × Contents)
      → Meets others r s
      → Agrees others (ended t r) (spec_ended t s)
  ended-Agrees t r s m = record {
    threads = ap (λ msg. finished t msg) m.message;
    chains = m.chains;
    valid = m.valid;
    reads = m.reads;
  }

  module _ {others : ℕ} {k : Kernel} {bs : List Chain} (valid : IsValid others k bs)
      (t : Thread) where
    same-Agrees : Agrees others (t, k) (t, contents k)
    same-Agrees = record { threads = refl; chains = bs; valid = valid; reads = λ q. refl }

    moved-Agrees : (t' : Thread) → Agrees others (t', k) (t', contents k)
    moved-Agrees t' = record { threads = refl; chains = bs; valid = valid; reads = λ q. refl }

    check_insert_seen :
        (n : ℕ) (out : Option (List ℕ))
        → looked valid t.env t.message ≡ (pos n, out, k)
        → check_insert t k ≡ (finished t (refused t.message (codes "Key exists. Use update.\n")), k)
    check_insert_seen n out e = unfold check_insert in rw (e, check_insert)

    check_insert_unseen :
        (n : ℕ) (out : Option (List ℕ))
        → looked valid t.env t.message ≡ (negsuc n, out, k)
        → check_insert t k ≡ (record t { phase = checked }, k)
    check_insert_unseen n out e = unfold check_insert in rw (e, check_insert)

    check_update_seen :
        (n : ℕ) (out : Option (List ℕ))
        → looked valid t.env t.message ≡ (pos n, out, k)
        → check_update t k ≡ (record t { phase = checked }, k)
    check_update_seen n out e = unfold check_update in rw (e, check_update)

    check_update_unseen :
        (n : ℕ) (out : Option (List ℕ))
        → looked valid t.env t.message ≡ (negsuc n, out, k)
        → check_update t k ≡ (
          finished t (
              refused t.message
                (codes "Cannot update non-existent key: " ++ decimal t.message.key ++ codes "\n")),
          k,
        )
    check_update_unseen n out e = unfold check_update in rw (e, check_update)

    check_insert-Agrees :
        Agrees others (check_insert t k) (spec_section start inserting t (contents k))
    check_insert-Agrees = elim (Option-cases (seen (contents k t.message.key))) [
      | inr (v, e) ↦
          rw
            (
              e,
              spec_section,
              check_insert_seen (length v) _ (lookup_seen valid t.env t.message v e),
            )
            (moved-Agrees _)
      | inl e ↦
          let (n, run) = lookup_unseen valid t.env t.message e in
          rw (e, spec_section, check_insert_unseen n _ run) (moved-Agrees _)
    ]

    check_update-Agrees :
        Agrees others (check_update t k) (spec_section start updating t (contents k))
    check_update-Agrees = elim (Option-cases (seen (contents k t.message.key))) [
      | inr (v, e) ↦
          rw
            (
              e,
              spec_section,
              check_update_seen (length v) _ (lookup_seen valid t.env t.message v e),
            )
            (moved-Agrees _)
      | inl e ↦
          let (n, run) = lookup_unseen valid t.env t.message e in
          rw (e, spec_section, check_update_unseen n _ run) (moved-Agrees _)
    ]

    store_value_run :
        store_value t k
        ≡ ended t (
            write_end valid t.env t.message (failure_of t.handler) (
              kv_hash_add kv_store t.message.key
                (some (t.message.value ++ t.env.beyond))
                t.env.dup_ok
                t.env.node_ok
                k))
    store_value_run = unfold store_value write_end in ground arith

    store_value-Agrees :
        Agrees others
          (store_value t k)
          (spec_ended t (spec_write t.env t.message (failure_of t.handler) (contents k)))
    store_value-Agrees =
        rw store_value_run
          (ended-Agrees t _ _ (added-Meets valid t.env t.message (failure_of t.handler)))

    section-Agrees :
        (phase : Phase) (handler : Handler)
        → Agrees others (section_at phase handler t k) (spec_section phase handler t (contents k))
    unfolding section_at
    section-Agrees start inserting = check_insert-Agrees
    section-Agrees start updating = check_update-Agrees
    section-Agrees start getting =
        ended-Agrees t (handle_get t.message k) _ (get-Meets valid t.env t.message)
    section-Agrees start deleting =
        ended-Agrees t (handle_delete t.message k) _ (delete-Meets valid t.env t.message)
    section-Agrees checked handler = store_value-Agrees
    section-Agrees done handler = same-Agrees

    next-Agrees : Agrees others (next_section t k) (spec_section t.phase t.handler t (contents k))
    unfolding next_section
    next-Agrees = section-Agrees t.phase t.handler

  -- One step, whichever thread takes it.
  one_step-Agrees :
      {others : ℕ} {k : Kernel} {bs : List Chain} (valid : IsValid others k bs) (i : ℕ)
      (ts : List Thread)
      → Agrees others (one_step i ts k) (spec_step i ts (contents k))
  unfolding one_step
  one_step-Agrees {bs = bs} valid i [] = record {
    threads = refl;
    chains = bs;
    valid = valid;
    reads = λ q. refl;
  }
  one_step-Agrees valid zero (t ∷ ts) =
      let a = next-Agrees valid t in
      record {
        threads = ap (λ t'. t' ∷ ts) a.threads;
        chains = a.chains;
        valid = a.valid;
        reads = a.reads;
      }
  one_step-Agrees valid (suc i) (t ∷ ts) =
      let a = one_step-Agrees valid i ts in
      record {
        threads = ap (λ ts'. t ∷ ts') a.threads;
        chains = a.chains;
        valid = a.valid;
        reads = a.reads;
      }

  -- From a valid table, with any number of threads anywhere in the handlers of insert, update, get
  -- and delete, whatever their allocations do, and under every interleaving of their calls of the
  -- hash table, the threads stand where the same interleaving of atomic steps on a map from keys to
  -- values puts them, with the same messages, and the table is valid and holds the map that these
  -- steps leave.
  pub interleave-Agrees :
      {others : ℕ} (is : List ℕ) (ts : List Thread) {k : Kernel} {bs : List Chain}
      → IsValid others k bs
      → Agrees others (interleave is ts k) (spec_interleave is ts (contents k))
  unfolding interleave
  interleave-Agrees [] ts {bs = bs} valid = record {
    threads = refl;
    chains = bs;
    valid = valid;
    reads = λ q. refl;
  }
  interleave-Agrees {others} (i ∷ is) ts {k} valid =
      let a = one_step-Agrees valid i ts in
      let later = interleave-Agrees is (one_step i ts k).0 a.valid in
      let same : contents (one_step i ts k).1 ≡ (spec_step i ts (contents k)).1 = fun_ext a.reads in
      let step : spec_interleave is (one_step i ts k).0 (contents (one_step i ts k).1)
          ≡ spec_interleave is (spec_step i ts (contents k)).0 (spec_step i ts (contents k)).1 =
        (λ j. spec_interleave is (a.threads j) (same j)) in
      subst (λ s. Agrees others (interleave is (one_step i ts k).0 (one_step i ts k).1) s) step
        later
