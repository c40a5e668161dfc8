-- ===== src/Daemon/Files/Save.antt =====
-- `do_kv_snapshot_to_file` of user/daemon/daemon.cpp: what the snapshot file holds afterwards.
use kvstore_lkm.Prelude.{
  ℕ, suc, ◌∷◌, ◌^◌, ◌≡◌, ◌≢◌, ◌<◌, refl, sym, ap, ◌∙◌, Bool, true, false, not, Option, some, List,
  [], ◌++◌, arith, if◌then◌else◌, ◌==◌, pos, neg, inl, inr, Bool-cases, past_guard, length, flatten,
  take,
}
use mathlib.Core.Bool.{false≢true}
use kvstore_lkm.Message.{KvMessage, KvSnapshotMessage}
use kvstore_lkm.Hash.Chain.{Chain}
use kvstore_lkm.Hash.Table.{Hashing, Kernel, IsValid}
use kvstore_lkm.Hash.View.{entry_total, entry_total-IsValid}
use kvstore_lkm.Hash.Snapshot.{messages}
use kvstore_lkm.Device.Handlers.{Env}
use kvstore_lkm.Device.Ioctl.{handle_kv_count, handle_kv_snapshot, kv_ioctl, efault}
use kvstore_lkm.Device.Snapshot.{handle_kv_count_lem, snapshot_mismatch, snapshot_sent}
use kvstore_lkm.Daemon.Files.{
  SnapshotFile, Saving, image, asked_for, write_snapshot, do_kv_snapshot_to_file,
}

module _ ⦃hashing : Hashing⦄ where
  -- Both parts of the function, for what its call answers.
  counted_run :
      (s : Saving) (file : Option SnapshotFile) (k : Kernel) (n : ℕ)
      → s.count_env.copy_out ≡ true
      → handle_kv_count s.count_env 0 k ≡ (pos 0, n, k)
      → do_kv_snapshot_to_file s file k ≡ (
          if n == 0
          then (file, k)
          else if not s.calloc_ok
          then (file, k)
          else write_snapshot s n file k)
  counted_run s file k n ok e =
      unfold do_kv_snapshot_to_file kv_ioctl in rw (e, do_kv_snapshot_to_file)

  written_run :
      (s : Saving) (n : ℕ) (file : Option SnapshotFile) (k k' : Kernel) (msg : KvSnapshotMessage)
      (c : ℕ)
      → handle_kv_snapshot s.snapshot_env (asked_for n) (s.between k) ≡ (pos c, msg, k')
      → write_snapshot s n file k ≡ (if not s.open_ok then (file, k') else (some (image msg), k'))
  written_run s n file k k' msg c e = unfold write_snapshot kv_ioctl in rw (e, write_snapshot)

  uncounted_run :
      (s : Saving) (file : Option SnapshotFile) (k : Kernel)
      → handle_kv_count s.count_env 0 k ≡ (neg efault, 0, k)
      → do_kv_snapshot_to_file s file k ≡ (file, k)
  uncounted_run s file k e =
      unfold do_kv_snapshot_to_file kv_ioctl in rw (e, do_kv_snapshot_to_file)

chosen {ℓ} : {A : Type ℓ} (b : Bool) (x y : A) → b ≡ true → (if b then x else y) ≡ x
chosen true x y h = refl
chosen false x y h = absurd (false≢true h)

not_chosen {ℓ} : {A : Type ℓ} (b : Bool) (x y : A) → b ≡ false → (if b then x else y) ≡ y
not_chosen true x y h = absurd (false≢true (sym h))
not_chosen false x y h = refl

pub take_front {ℓ} : {A : Type ℓ} (xs ys : List A) → take (length xs) (xs ++ ys) ≡ xs
unfolding take
take_front [] ys = refl
take_front (x ∷ xs) ys = ap (λ zs. x ∷ zs) (take_front xs ys)

pub length-messages : (c : Chain) → length (messages c) ≡ length c
length-messages [] = refl
length-messages (e ∷ c) = ap suc (length-messages c)

image_of :
    (msg : KvSnapshotMessage) (n : ℕ) (ms rest : List KvMessage)
    → msg.status ≡ pos 0
    → msg.capacity ≡ n
    → msg.count ≡ n
    → msg.entries ≡ ms ++ rest
    → length ms ≡ n
    → image msg ≡ record { status = pos 0; capacity = n; count = n; entries = ms }
image_of msg n ms rest status capacity count entries size =
    rw (status, capacity, count, entries, sym size, take_front ms rest)

-- Every call, allocation and file works.
pub record IsSaved (s : Saving) : Type 0 where
  pub counted : s.count_env.copy_out ≡ true
  pub allocated : s.calloc_ok ≡ true
  pub copied_in : s.snapshot_env.copy_in ≡ true
  pub copied_out : s.snapshot_env.copy_out ≡ true
  pub memory : s.snapshot_env.snapshot_ok ≡ true
  pub opened : s.open_ok ≡ true

module _ ⦃hashing : Hashing⦄ {others : ℕ} {k : Kernel} {bs : List Chain}
    (valid : IsValid others k bs) (few : entry_total k < 2 ^ 31) where
  count_of : (env : Env) → env.copy_out ≡ true → handle_kv_count env 0 k ≡ (pos 0, entry_total k, k)
  count_of env h = handle_kv_count_lem valid few env 0 ∙ chosen env.copy_out _ _ h

  -- A save of a valid table with no entry leaves the store and the file of an older save as they
  -- are, whatever the rest of the system does.
  pub save_empty :
      (s : Saving) (file : Option SnapshotFile)
      → entry_total k ≡ 0
      → do_kv_snapshot_to_file s file k ≡ (file, k)
  save_empty s file none_there = elim (Bool-cases s.count_env.copy_out) [
    | inl ok ↦
        counted_run s file k (entry_total k) ok (count_of s.count_env ok)
        ∙ chosen (entry_total k == 0) _ _ (rw none_there refl)
    | inr failed ↦
        uncounted_run s file k
          (handle_kv_count_lem valid few s.count_env 0 ∙ not_chosen s.count_env.copy_out _ _ failed)
  ]

  reaches_write :
      (s : Saving) (file : Option SnapshotFile)
      → IsSaved s
      → 0 < entry_total k
      → do_kv_snapshot_to_file s file k ≡ write_snapshot s (entry_total k) file k
  reaches_write s file works some_there =
      let more : (entry_total k == 0) ≡ false = ground (arith, some_there) in
      counted_run s file k (entry_total k) works.counted (count_of s.count_env works.counted)
      ∙ not_chosen (entry_total k == 0) _ _ more
      ∙ past_guard s.calloc_ok _ _ works.allocated

  -- If in a save of a valid table with at least one entry, in which every call and allocation
  -- succeeds, the table has become another valid one with another number of entries (both below
  -- 2^31) by the second call, then the file becomes a header that counts no entry: what an older
  -- file held is lost.
  pub save_race :
      {others' : ℕ} {bs' : List Chain} (s : Saving) (file : Option SnapshotFile)
      → IsSaved s
      → 0 < entry_total k
      → IsValid others' (s.between k) bs'
      → entry_total (s.between k) < 2 ^ 31
      → entry_total (s.between k) ≢ entry_total k
      → do_kv_snapshot_to_file s file k ≡ (
        some (record { status = pos 0; capacity = entry_total k; count = 0; entries = [] }),
        s.between k,
      )
  save_race s file works some_there valid' few' differ =
      let refusal =
        snapshot_mismatch valid' few' s.snapshot_env (asked_for (entry_total k)) works.copied_in
          (λ e. differ (sym e)) in
      reaches_write s file works some_there
      ∙ written_run s (entry_total k) file k (s.between k) (asked_for (entry_total k))
          (entry_total (s.between k)) refusal
      ∙ past_guard s.open_ok _ _ works.opened
      ∙ (unfold take in refl)

  -- On a valid table with at least one entry and below 2^31, a save in which every call and
  -- allocation succeeds and with no change between its two calls leaves the store as it is, and
  -- makes the file a header that says success and counts the entries, with the entries in table
  -- order.
  pub save_lem :
      (s : Saving) (file : Option SnapshotFile)
      → IsSaved s
      → 0 < entry_total k
      → s.between k ≡ k
      → do_kv_snapshot_to_file s file k ≡ (
        some (record {
          status = pos 0;
          capacity = entry_total k;
          count = entry_total k;
          entries = messages (flatten bs);
        }),
        k,
      )
  save_lem s file works some_there alone =
      let n = entry_total k in
      let (msg, runs, status, capacity, count, entries) =
        snapshot_sent valid few s.snapshot_env (asked_for n) works.copied_in refl works.memory
          some_there in
      let sent : handle_kv_snapshot s.snapshot_env (asked_for n) (s.between k) ≡ (pos 0, msg, k) =
        rw alone (runs ∙ past_guard s.snapshot_env.copy_out _ _ works.copied_out) in
      let size : length (messages (flatten bs)) ≡ n =
        length-messages (flatten bs) ∙ sym (entry_total-IsValid valid) in
      let written = image_of msg n _ _ status capacity count entries size in
      reaches_write s file works some_there
      ∙ written_run s n file k k msg 0 sent
      ∙ past_guard s.open_ok _ _ works.opened
      ∙ ap (λ (f : SnapshotFile). (some f, k)) written
