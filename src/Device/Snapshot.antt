-- ===== src/Device/Snapshot.antt =====
-- `_handle_kv_snapshot` of kernel/kvlkm.c, on each of its paths.
use kvstore_lkm.Prelude.{
  ℕ, ◌+◌, ◌%◌, ◌^◌, ◌≡◌, ◌≢◌, ◌<◌, refl, sym, ap, ◌∙◌, Bool, true, false, not, some, List, [], ◌++◌,
  arith, if◌then◌else◌, ◌==◌, ℤ, pos, neg, is_neg, to_int, to_unsigned, length, flatten, drop,
  replicate, length-replicate, take_all, past_guard,
}
use mathlib.Core.Path.{subst, ap₂}
use kvstore_lkm.Message.{KvMessage, KvSnapshotMessage}
use kvstore_lkm.Hash.Chain.{Chain}
use kvstore_lkm.Hash.Table.{Hashing, kv_store, Kernel, IsValid, kmalloc, kfree, einval, enomem}
use kvstore_lkm.Hash.Ops.{kv_hash_count, kv_hash_snapshot}
use kvstore_lkm.Hash.View.{entry_total, entry_total-IsValid}
use kvstore_lkm.Hash.Count.{kv_hash_count_lem}
use kvstore_lkm.Hash.Snapshot.{messages, kv_hash_snapshot_lem}
use kvstore_lkm.Device.Handlers.{Env, handle_snapshot}
use kvstore_lkm.Device.Ioctl.{
  handle_kv_snapshot, handle_kv_count, send_snapshot, send_allocated, fresh, copied_out, efault,
}

pub kfree-kmalloc : (k : Kernel) → k.held ≡ [] → kfree (kmalloc true k) ≡ k
unfolding kfree kmalloc
kfree-kmalloc k h = ground arith

to_int_small : (n : ℕ) → n < 2 ^ 31 → to_int n ≡ pos n
to_int_small n h = ground arith

-- The paths of the handlers, for a table that is counted as `n`.
module _ ⦃hashing : Hashing⦄ (k : Kernel) (n : ℕ) (small : n < 2 ^ 31)
    (counted : kv_hash_count kv_store k ≡ (pos n, k)) where
  count_run :
      (env : Env) (arg : ℕ)
      → handle_kv_count env arg k ≡ (if env.copy_out then (pos 0, n, k) else (neg efault, arg, k))
  unfolding handle_kv_count
  count_run env arg = rw (counted, handle_kv_count) (ground arith)

  run_mismatch :
      (env : Env) (arg : KvSnapshotMessage)
      → env.copy_in ≡ true
      → arg.capacity ≢ n
      → handle_kv_snapshot env arg k ≡ (pos n, arg, k)
  run_mismatch env arg h differs =
      let other : (n % 2 ^ 32 == arg.capacity) ≡ false = ground arith in
      unfold handle_kv_snapshot in
      rw (counted, handle_kv_snapshot, other) (past_guard env.copy_in _ _ h)

  run_match :
      (env : Env) (arg : KvSnapshotMessage)
      → env.copy_in ≡ true
      → arg.capacity ≡ n
      → handle_kv_snapshot env arg k ≡ send_snapshot env (pos n) arg k
  run_match env arg h same =
      let equal : (n % 2 ^ 32 == arg.capacity) ≡ true = ground arith in
      unfold handle_kv_snapshot in
      rw (counted, handle_kv_snapshot, equal) (past_guard env.copy_in _ _ h)

-- The rest of the way, with a count `n`.
module _ ⦃hashing : Hashing⦄ (k : Kernel) (n : ℕ) where
  run_no_memory :
      (env : Env) (arg : KvSnapshotMessage)
      → env.snapshot_ok ≡ false
      → send_snapshot env (pos n) arg k ≡ (neg enomem, arg, kmalloc false k)
  run_no_memory env arg h = unfold send_snapshot in rw h

  -- The fresh block is there.
  pub run_allocated :
      (env : Env) (arg : KvSnapshotMessage)
      → env.snapshot_ok ≡ true
      → send_snapshot env (pos n) arg k
        ≡ send_allocated env (to_unsigned (pos n)) arg (kmalloc true k)
  run_allocated env arg h =
      unfold send_snapshot in
      (past_guard env.snapshot_ok _ _ h
        ∙ ap (λ (ok : Bool). send_allocated env (to_unsigned (pos n)) arg (kmalloc ok k)) h)

  -- What `_handle_snapshot` answers decides the rest, and the fresh block is freed on each path.
  pub run_filled :
      (env : Env) (arg : KvSnapshotMessage) (ret : ℤ) (msg : KvSnapshotMessage) (k₁ k₂ : Kernel)
      → handle_snapshot (fresh env n) k₁ ≡ (ret, msg, k₂)
      → send_allocated env n arg k₁ ≡ (
          if is_neg ret
          then (ret, arg, kfree k₂)
          else if not env.copy_out
          then (neg efault, arg, kfree k₂)
          else (ret, copied_out msg arg, kfree k₂))
  run_filled env arg ret msg k₁ k₂ e = unfold send_allocated in rw (e, send_allocated)

pub handle_snapshot_ok :
    ⦃hashing : Hashing⦄ (msg : KvSnapshotMessage) (k : Kernel) (entries : List KvMessage)
    (count : ℕ)
    → kv_hash_snapshot kv_store (some msg.entries) msg.capacity (some 0) k
      ≡ (pos 0, some entries, some count, k)
    → handle_snapshot msg k
      ≡ (pos 0, record msg { entries = entries; count = count; status = pos 0 }, k)
handle_snapshot_ok msg k entries count e = unfold handle_snapshot in rw (e, handle_snapshot)

handle_snapshot_empty :
    ⦃hashing : Hashing⦄ (env : Env) (k : Kernel) (bs : List Chain)
    → k.table.buckets ≡ some bs
    → handle_snapshot (fresh env 0) k
      ≡ (neg einval, record (fresh env 0) { count = 0; status = pos 1; entries = [] }, k)
handle_snapshot_empty env k bs h =
    let refusal : kv_hash_snapshot kv_store (some []) 0 (some 0) k
        ≡ (neg einval, some [], some 0, k) =
      unfold kv_hash_snapshot in ground arith in
    unfold handle_snapshot replicate in rw (refusal, handle_snapshot)

module _ ⦃hashing : Hashing⦄ {others : ℕ} {k : Kernel} {bs : List Chain}
    (valid : IsValid others k bs) where
  pub kmalloc-IsValid : IsValid (others + 1) (kmalloc true k) bs
  unfolding kmalloc
  kmalloc-IsValid = record {
    ready = valid.ready;
    locks = valid.locks;
    some_bits = valid.some_bits;
    few_bits = valid.few_bits;
    width = valid.width;
    placed = valid.placed;
    strings = valid.strings;
    balanced = omega (arith, valid.balanced);
    unlocked = valid.unlocked;
  }

module _ ⦃hashing : Hashing⦄ {others : ℕ} {k : Kernel} {bs : List Chain}
    (valid : IsValid others k bs) (few : entry_total k < 2 ^ 31) where
  pub counted : kv_hash_count kv_store k ≡ (pos (entry_total k), k)
  counted = kv_hash_count_lem valid ∙ ap (λ (z : ℤ). (z, k)) (to_int_small (entry_total k) few)

  -- On a valid table with below 2^31 entries, KV_COUNT gives the caller their number and code 0 if
  -- the copy to the caller succeeds, and -EFAULT with the caller's counter as it was if not. The
  -- kernel does not change.
  pub handle_kv_count_lem :
      (env : Env) (arg : ℕ)
      → handle_kv_count env arg k
        ≡ (if env.copy_out then (pos 0, entry_total k, k) else (neg efault, arg, k))
  handle_kv_count_lem = count_run k (entry_total k) (omega (arith, few)) counted

  -- On a valid table with below 2^31 entries, a KV_SNAPSHOT that is copied in, with a capacity that
  -- is not the number of entries, answers that number, a code that is not negative, and leaves the
  -- caller's message and the kernel as they were.
  pub snapshot_mismatch :
      (env : Env) (arg : KvSnapshotMessage)
      → env.copy_in ≡ true
      → arg.capacity ≢ entry_total k
      → handle_kv_snapshot env arg k ≡ (pos (entry_total k), arg, k)
  snapshot_mismatch = run_mismatch k (entry_total k) (omega (arith, few)) counted

  module _ (env : Env) (arg : KvSnapshotMessage) (copied : env.copy_in ≡ true)
      (fits : arg.capacity ≡ entry_total k) (memory : env.snapshot_ok ≡ true) where
    reaches :
        (ret : ℤ) (msg : KvSnapshotMessage)
        → handle_snapshot (fresh env (entry_total k)) (kmalloc true k) ≡ (ret, msg, kmalloc true k)
        → handle_kv_snapshot env arg k ≡ (
            if is_neg ret
            then (ret, arg, k)
            else if not env.copy_out
            then (neg efault, arg, k)
            else (ret, copied_out msg arg, k))
    reaches ret msg e =
        let n = entry_total k in
        let whole : to_unsigned (pos n) ≡ n = omega (arith, few) in
        let sent = run_allocated k n env arg memory in
        let done = run_filled k n env arg ret msg _ _ e in
        run_match k n (omega (arith, few)) counted env arg copied fits
        ∙ (rw whole at sent)
        ∙ (rw (kfree-kmalloc k valid.unlocked) at done)

    -- On a valid table with no entry, a KV_SNAPSHOT with the right capacity, 0, that is copied in
    -- and gets its memory is refused with -EINVAL, and leaves the caller's message and the kernel
    -- as they were.
    pub snapshot_empty : entry_total k ≡ 0 → handle_kv_snapshot env arg k ≡ (neg einval, arg, k)
    snapshot_empty none_there =
        let ready : (kmalloc true k).table.buckets ≡ some bs = unfold kmalloc in valid.ready in
        reaches (neg einval) _ (
          subst
            (λ n. handle_snapshot (fresh env n) (kmalloc true k) ≡ (
              neg einval,
              record (fresh env n) { count = 0; status = pos 1; entries = [] },
              kmalloc true k,
            ))
            (sym none_there) (handle_snapshot_empty env (kmalloc true k) bs ready))

    -- On a valid table with at least one entry and below 2^31, a KV_SNAPSHOT that is copied in and
    -- gets its memory, with a capacity equal to the number of entries, gives the caller code 0,
    -- that number as capacity and count, and the entries in table order over the front of its
    -- array; if the copy to the caller fails it gives -EFAULT and leaves the caller's message. In
    -- both cases the kernel is as before.
    pub snapshot_sent :
        0 < entry_total k
        → (msg : KvSnapshotMessage) × (handle_kv_snapshot env arg k
            ≡ (if not env.copy_out then (neg efault, arg, k) else (pos 0, msg, k)))
          × (msg.status ≡ pos 0)
          × (msg.capacity ≡ entry_total k)
          × (msg.count ≡ entry_total k)
          × (msg.entries ≡ messages (flatten bs) ++ drop (entry_total k) arg.entries)
    snapshot_sent some_there =
        let n = entry_total k in
        let room = length-replicate n env.garbage in
        let snap =
          kv_hash_snapshot_lem (kmalloc-IsValid valid) n (replicate n env.garbage) 0 some_there
            (omega (arith, room)) in
        let filled =
          handle_snapshot_ok (fresh env n) (kmalloc true k) snap.array snap.count snap.runs in
        let all : length (flatten bs) ≡ n = sym (entry_total-IsValid valid) in
        let number : snap.count ≡ n = snap.number ∙ omega (arith, all) in
        (
          _,
          reaches (pos 0) _ filled,
          refl,
          refl,
          number,
          ap₂ ◌++◌ (snap.copies ∙ ap messages (take_all n (flatten bs) (omega (arith, all))))
              (ap (λ (c : ℕ). drop c arg.entries) number),
        )
