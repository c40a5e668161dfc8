-- ===== src/Device/Locked/Sections.antt =====
-- The next section of a thread in kernel/kvlkm.c, as its request of the table, what the table does
-- under the lock, and what the thread makes of the answer.
use kvstore_lkm.Prelude.{
  ℕ, ◌≡◌, refl, ap, ◌∙◌, inl, inr, Bool, true, false, Bool-cases, Option, none, some, List, [],
  ◌++◌, if◌then◌else◌, get_or, set, arith, ℤ, neg, is_neg,
}
use mathlib.Core.Path.{subst}
use mathlib.Core.Option.{some_inj}
use kvstore_lkm.Text.{c_string}
use kvstore_lkm.Message.{max_value_len, zero_value}
use kvstore_lkm.Hash.Chain.{Chain}
use kvstore_lkm.Hash.Table.{Hashing, kv_store, Kernel, enomem, kv_bucket, kmalloc}
use kvstore_lkm.Hash.Ops.{kv_hash_add, kv_hash_remove, kv_hash_lookup, lookup_locked}
use kvstore_lkm.Hash.Locks.{TableRequest, adding, looking, Answer, section_of}
use kvstore_lkm.Hash.Locks.Sections.{
  Answers, with_buffer, with_no_buffer, add_whole, remove_whole, lookup_whole, lookup_run,
}
use kvstore_lkm.Device.Handlers.{handle_get, handle_delete}
use kvstore_lkm.Device.Interleave.{
  Phase, start, checked, done, Handler, inserting, updating, getting, deleting, Thread,
  check_insert, check_update, store_value, section_at,
}
use kvstore_lkm.Device.Locked.{request_at, resume_at}

-- A section of a thread resumes it with the answer, and leaves these chains.
pub record Resumes (bits : ℕ) (p : Phase) (h : Handler) (t : Thread) (s : Answer × List Chain)
    (r : Thread × Kernel) : Type 0 where
  pub resumed : r.0 ≡ resume_at p h t s.0
  pub buckets : r.1.table.buckets ≡ some s.1
  pub same_bits : r.1.table.bits ≡ bits

from_answers :
    {bits b : ℕ} {bs : List Chain} {s : Answer × Chain} (p : Phase) (h : Handler) (t : Thread)
    (r : Thread × Kernel) (op : Answer × Kernel)
    → r ≡ (resume_at p h t op.0, op.1)
    → Answers bits bs b s op
    → Resumes bits p h t (s.0, set bs b s.1) r
from_answers p h t r op e a = record {
  resumed = ap (λ (x : Thread × Kernel). x.0) e ∙ ap (resume_at p h t) a.answer;
  buckets = ap (λ (x : Thread × Kernel). x.1.table.buckets) e ∙ a.buckets;
  same_bits = ap (λ (x : Thread × Kernel). x.1.table.bits) e ∙ a.same_bits;
}

module _ ⦃hashing : Hashing⦄ (t : Thread) (bs : List Chain) (k : Kernel)
    (ready : k.table.buckets ≡ some bs) where
  abbrev b : ℕ
  b = hashing.hash_min t.message.key k.table.bits

  -- What the table does under the lock.
  abbrev pub under_lock : TableRequest → Answer × List Chain
  under_lock q = let (answer, c) = section_of q (get_or bs b []) in (answer, set bs b c)

  abbrev lookup : ℤ × Option (List ℕ) × Kernel
  lookup = kv_hash_lookup kv_store t.message.key (some zero_value) max_value_len k

  abbrev looked : Answer × Kernel
  looked = with_buffer lookup

  check_insert_run : check_insert t k ≡ (resume_at start inserting t looked.0, looked.1)
  unfolding check_insert resume_at
  check_insert_run = elim (Bool-cases (is_neg looked.0.0)) [ inl e ↦ rw e refl | inr e ↦ rw e refl ]

  check_update_run : check_update t k ≡ (resume_at start updating t looked.0, looked.1)
  unfolding check_update resume_at
  check_update_run = elim (Bool-cases (is_neg looked.0.0)) [ inl e ↦ rw e refl | inr e ↦ rw e refl ]

  get_run : section_at start getting t k ≡ (resume_at start getting t looked.0, looked.1)
  unfolding section_at resume_at handle_get
  get_run =
      let run = lookup_run bs t.message.key k ready zero_value max_value_len (omega arith) in
      elim (Bool-cases (
        is_neg
          (lookup_locked (get_or bs (kv_bucket k.table t.message.key) []) t.message.key zero_value
            max_value_len).0)) [ inl e ↦ rw (run, e) refl | inr e ↦ rw (run, e) refl ]

  abbrev removed : Answer × Kernel
  removed = with_no_buffer (kv_hash_remove kv_store t.message.key k)

  delete_run : section_at start deleting t k ≡ (resume_at start deleting t removed.0, removed.1)
  unfolding section_at resume_at handle_delete
  delete_run = elim (Bool-cases (is_neg removed.0.0)) [ inl e ↦ rw e refl | inr e ↦ rw e refl ]

  abbrev stored : Bool → Answer × Kernel
  stored dup_ok = with_no_buffer (
      kv_hash_add kv_store t.message.key (some (t.message.value ++ t.env.beyond)) dup_ok
        t.env.node_ok k)

  store_run :
      (handler : Handler)
      → store_value t k
        ≡ (resume_at checked handler t (stored t.env.dup_ok).0, (stored t.env.dup_ok).1)
  unfolding store_value resume_at
  store_run handler = elim (Bool-cases (is_neg (stored t.env.dup_ok).0.0)) [
    | inl e ↦ rw e refl
    | inr e ↦ rw e refl
  ]

  -- The write, as it goes with this outcome of the copy.
  store_run_as :
      (handler : Handler) (dup_ok : Bool)
      → t.env.dup_ok ≡ dup_ok
      → store_value t k ≡ (resume_at checked handler t (stored dup_ok).0, (stored dup_ok).1)
  store_run_as handler dup_ok e =
      subst (λ d. store_value t k ≡ (resume_at checked handler t (stored d).0, (stored d).1)) e
        (store_run handler)

  as_request :
      (p : Phase) (h : Handler) (q q' : TableRequest) (r : Thread × Kernel)
      → some q ≡ some q'
      → Resumes k.table.bits p h t (under_lock q) r
      → Resumes k.table.bits p h t (under_lock q') r
  as_request p h q q' r e = subst (λ x. Resumes k.table.bits p h t (under_lock x) r) (some_inj.0 e)

  lookup-Resumes :
      (h : Handler) (r : Thread × Kernel)
      → r ≡ (resume_at start h t looked.0, looked.1)
      → Resumes k.table.bits start h t
          (under_lock (looking t.message.key zero_value max_value_len))
          r
  lookup-Resumes h r run = from_answers start h t r looked run (
      unfold kv_bucket in
      lookup_whole bs t.message.key k ready zero_value max_value_len (omega arith))

  -- A request that the thread has.
  checked-Resumes :
      (handler : Handler) (q : TableRequest) (dup_ok : Bool)
      → t.env.dup_ok ≡ dup_ok
      → (if dup_ok
          then some
              (adding t.message.key (c_string (t.message.value ++ t.env.beyond)) t.env.node_ok)
          else none)
        ≡ some q
      → Resumes k.table.bits checked handler t (under_lock q) (store_value t k)
  checked-Resumes handler q true e h =
      let newstr = t.message.value ++ t.env.beyond in
      as_request checked handler _ q (store_value t k) h (
        from_answers checked handler t _ (stored true) (store_run_as handler true e)
          (unfold kv_bucket in add_whole bs t.message.key k ready newstr t.env.node_ok))
  checked-Resumes handler q false e h = cc

  pub section-Resumes :
      (p : Phase) (h : Handler) (q : TableRequest)
      → request_at p h t ≡ some q
      → Resumes k.table.bits p h t (under_lock q) (section_at p h t k)
  unfolding request_at section_at
  section-Resumes start inserting q e =
      as_request start inserting _ q _ e (lookup-Resumes inserting _ check_insert_run)
  section-Resumes start updating q e =
      as_request start updating _ q _ e (lookup-Resumes updating _ check_update_run)
  section-Resumes start getting q e =
      as_request start getting _ q _ e (lookup-Resumes getting _ get_run)
  section-Resumes start deleting q e = as_request start deleting _ q _ e (
      from_answers start deleting t _ removed delete_run
        (unfold kv_bucket in remove_whole bs t.message.key k ready))
  section-Resumes checked h q e = checked-Resumes h q t.env.dup_ok refl e
  section-Resumes done h q e = cc

  -- Without a request it resumes with an error, or is at its end.
  failed_run : stored false ≡ ((neg enomem, []), kmalloc false k)
  unfolding kv_hash_add
  failed_run = ground (arith, ready)

  checked-Fails :
      (handler : Handler) (dup_ok : Bool)
      → t.env.dup_ok ≡ dup_ok
      → (if dup_ok
          then some
              (adding t.message.key (c_string (t.message.value ++ t.env.beyond)) t.env.node_ok)
          else none)
        ≡ none
      → Resumes k.table.bits checked handler t ((neg enomem, []), bs) (store_value t k)
  unfolding kmalloc
  checked-Fails handler true e h = cc
  checked-Fails handler false e h =
      let run = store_run_as handler false e in
      record {
        resumed =
            ap (λ (x : Thread × Kernel). x.0) run
            ∙ ap (λ (x : Answer × Kernel). resume_at checked handler t x.0) failed_run;
        buckets =
            ap (λ (x : Thread × Kernel). x.1.table.buckets) run
            ∙ ap (λ (x : Answer × Kernel). x.1.table.buckets) failed_run
            ∙ ready;
        same_bits =
            ap (λ (x : Thread × Kernel). x.1.table.bits) run
            ∙ ap (λ (x : Answer × Kernel). x.1.table.bits) failed_run;
      }

  pub section-Fails :
      (p : Phase) (h : Handler)
      → request_at p h t ≡ none
      → Resumes k.table.bits p h t ((neg enomem, []), bs) (section_at p h t k)
  unfolding request_at section_at resume_at
  section-Fails start inserting e = cc
  section-Fails start updating e = cc
  section-Fails start getting e = cc
  section-Fails start deleting e = cc
  section-Fails checked h e = checked-Fails h t.env.dup_ok refl e
  section-Fails done h e = record { resumed = refl; buckets = ready; same_bits = refl }
