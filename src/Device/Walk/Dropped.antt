-- ===== src/Device/Walk/Dropped.antt =====
-- A KV_SNAPSHOT of kernel/kvlkm.c that loses an entry to an insert.
use kvstore_lkm.Prelude.{
  ℕ, true, ◌+◌, ◌%◌, ◌^◌, ◌<◌, ◌≡◌, refl, sym, ap, ◌∙◌, Option, none, some, List, [], ◌∷◌, ◌++◌,
  arith, ◌==◌, length, length-append, length-replicate, replicate, take, drop, flatten, ℤ, pos,
  to_unsigned, past_guard,
}
use mathlib.Core.Path.{subst}
use kvstore_lkm.Message.{KvMessage, KvSnapshotMessage}
use kvstore_lkm.Hash.Chain.{Entry, Chain, find, occurs, find_absent, AllStrings}
use kvstore_lkm.Hash.Table.{Hashing, Kernel, IsValid, kmalloc}
use kvstore_lkm.Hash.Ops.{message_of}
use kvstore_lkm.Hash.View.{contents, entry_total}
use kvstore_lkm.Hash.Snapshot.{messages, kv_hash_snapshot_lem}
use kvstore_lkm.Hash.Export.{
  first, find-append, occurs-append, find_message, cut, find_message-messages, contents-flatten,
  AllStrings-flatten,
}
use kvstore_lkm.Device.Walk.Snapshot.{AllStrings-take}
use kvstore_lkm.Device.Handlers.{Env}
use kvstore_lkm.Device.Ioctl.{send_snapshot, fresh, copied_out}
use kvstore_lkm.Device.RoundTrip.{IsLucky}
use kvstore_lkm.Device.Interleave.{Thread, interleave}
use kvstore_lkm.Device.Interleave.Atomic.{interleave-Agrees}
use kvstore_lkm.Device.Snapshot.{
  run_allocated, run_filled, handle_snapshot_ok, kmalloc-IsValid, kfree-kmalloc, counted,
}
use kvstore_lkm.Device.Walk.{handle_kv_snapshot_paused}

take-append : {A : Type 0} (xs ys : List A) → take (length xs) (xs ++ ys) ≡ xs
unfolding take
take-append [] ys = refl
take-append (x ∷ xs) ys = ap (λ r. x ∷ r) (take-append xs ys)

take-messages :
    (xs : Chain) (ys : List KvMessage) → take (length xs) (messages xs ++ ys) ≡ messages xs
unfolding take
take-messages [] ys = refl
take-messages (x ∷ xs) ys = ap (λ r. message_of x ∷ r) (take-messages xs ys)

module _ ⦃hashing : Hashing⦄ {others : ℕ} {k : Kernel} {bs : List Chain}
    (valid : IsValid others k bs) (few : entry_total k < 2 ^ 31) (env : Env) (pause : List ℕ)
    (arg : KvSnapshotMessage) (ts : List Thread) where
  paused_run :
      env.copy_in ≡ true
      → arg.capacity ≡ entry_total k
      → handle_kv_snapshot_paused env pause arg ts k ≡ (
          let (ts', k₂) = interleave pause ts k in
          let (ret, msg, k₃) = send_snapshot env (pos (entry_total k)) arg k₂ in
          (ret, msg, ts', k₃))
  paused_run copied same =
      let equal : (entry_total k % 2 ^ 32 == arg.capacity) ≡ true = ground (arith, few, same) in
      unfold handle_kv_snapshot_paused in
      rw (counted valid few, handle_kv_snapshot_paused, equal) (past_guard env.copy_in _ _ copied)

-- A table with one entry more than the array has room for: the last one in table order is left out.
module _ ⦃hashing : Hashing⦄ {others : ℕ} {k : Kernel} {bs : List Chain}
    (valid : IsValid others k bs) (xs : Chain) (e : Entry)
    (split : flatten bs ≡ xs ++ (e ∷ [])) where
  not_before : occurs e.key xs ≡ 0
  not_before =
      let once = (contents-flatten valid e.key).1 in
      let last : occurs e.key (e ∷ []) ≡ 1 = unfold occurs in ground arith in
      let parts = ap (occurs e.key) split ∙ occurs-append e.key xs (e ∷ []) in
      omega (arith, once, parts, last)

  last_there : contents k e.key ≡ some e.value
  unfolding find first
  last_there =
      let self : (e.key == e.key) ≡ true = ground arith in
      let earlier : find e.key xs ≡ none = find_absent e.key xs not_before in
      (contents-flatten valid e.key).0
      ∙ ap (find e.key) split
      ∙ find-append e.key xs (e ∷ [])
      ∙ rw (earlier, self) refl

  xs-AllStrings : AllStrings xs
  xs-AllStrings =
      let all = subst AllStrings split (AllStrings-flatten bs valid.strings) in
      subst AllStrings (take-append xs (e ∷ [])) (AllStrings-take (length xs) (xs ++ (e ∷ [])) all)

  last_unseen : find_message e.key (messages xs) ≡ none
  last_unseen =
      find_message-messages e.key xs xs-AllStrings ∙ ap cut (find_absent e.key xs not_before)

  -- What the handler answers then.
  pub record Short (env : Env) (arg : KvSnapshotMessage) (r : ℤ × KvSnapshotMessage × Kernel)
      : Type 0 where
    pub code : r.0 ≡ pos 0
    pub number : r.1.count ≡ length xs
    pub copies : take (length xs) r.1.entries ≡ messages xs
    pub after : r.2 ≡ k

  send-Short :
      (env : Env) (arg : KvSnapshotMessage)
      → 0 < length xs
      → length xs < 2 ^ 31
      → env.snapshot_ok ≡ true
      → env.copy_out ≡ true
      → Short env arg (send_snapshot env (pos (length xs)) arg k)
  send-Short env arg some_there small memory out =
      let n = length xs in
      let room = length-replicate n env.garbage in
      let snap =
        kv_hash_snapshot_lem (kmalloc-IsValid valid) n (replicate n env.garbage) 0 some_there
          (omega (arith, room)) in
      let filled =
        handle_snapshot_ok (fresh env n) (kmalloc true k) snap.array snap.count snap.runs in
      let all : length (flatten bs) ≡ n + 1 =
        ap length split ∙ length-append xs (e ∷ []) ∙ omega arith in
      let number : snap.count ≡ n = snap.number ∙ omega (arith, all) in
      let whole : to_unsigned (pos n) ≡ n = omega (arith, small) in
      let sent = run_allocated k n env arg memory in
      let done = run_filled k n env arg (pos 0) _ _ _ filled in
      let freed = kfree-kmalloc k valid.unlocked in
      let copies : take snap.count snap.array ≡ messages xs =
        snap.copies ∙ ap (λ c. messages (take n c)) split ∙ ap messages (take-append xs (e ∷ [])) in
      let end : send_snapshot env (pos n) arg k ≡ (
        pos 0,
        copied_out
            (record (fresh env n) { entries = snap.array; count = snap.count; status = pos 0 }) arg,
        k,
      ) =
        (rw whole at sent) ∙ done ∙ rw (out, freed) refl in
      rw end (record {
        code = refl;
        number = number;
        copies = rw copies (take-messages xs (drop snap.count arg.entries));
        after = refl;
      })

chains_of : Option (List Chain) → List Chain
chains_of none = []
chains_of (some bs) = bs

module _ ⦃hashing : Hashing⦄ {others : ℕ} {k : Kernel} {bs : List Chain}
    (valid : IsValid others k bs) (few : entry_total k < 2 ^ 31) (env : Env) (pause : List ℕ)
    (arg : KvSnapshotMessage) (ts : List Thread) where
  -- On a valid table with at least one entry and below 2^31, if the allocations and copies of a
  -- KV_SNAPSHOT with the right capacity succeed, and the threads that run between its count and its
  -- snapshot leave one entry more than there was, then it answers 0 with as many messages as it
  -- counted, and the last key in table order has no message although it is in the table.
  pub snapshot_drops :
      (later : List Chain) (xs : Chain) (e : Entry)
      → IsLucky env
      → env.snapshot_ok ≡ true
      → arg.capacity ≡ entry_total k
      → 0 < entry_total k
      → (interleave pause ts k).1.table.buckets ≡ some later
      → flatten later ≡ xs ++ (e ∷ [])
      → length xs ≡ entry_total k
      → let r = handle_kv_snapshot_paused env pause arg ts k in
        (r.0 ≡ pos 0)
        × (r.1.count ≡ entry_total k)
        × (find_message e.key (take r.1.count r.1.entries) ≡ none)
        × (contents r.3 e.key ≡ some e.value)
  unfolding chains_of
  snapshot_drops later xs e lucky memory same some_there there split grown =
      let a = interleave-Agrees pause ts valid in
      let chains : a.chains ≡ later = ap chains_of (sym a.valid.ready ∙ there) in
      let valid' : IsValid others (interleave pause ts k).1 later =
        subst (λ c. IsValid others (interleave pause ts k).1 c) chains a.valid in
      let k₂ = (interleave pause ts k).1 in
      let short =
        send-Short valid' xs e split env arg (omega (arith, some_there, grown))
          (omega (arith, few, grown)) memory lucky.copied_out in
      let sent : Short valid' xs e split env arg (send_snapshot env (pos (entry_total k)) arg k₂) =
        subst (λ n. Short valid' xs e split env arg (send_snapshot env (pos n) arg k₂)) grown
          short in
      rw (paused_run valid few env pause arg ts lucky.copied_in same) (
        sent.code,
        sent.number ∙ grown,
        rw (sent.number, sent.copies) (last_unseen valid' xs e split),
        ap (λ k₃. contents k₃ e.key) sent.after ∙ last_there valid' xs e split,
      )
