-- ===== src/Daemon/Files.antt =====
-- `do_kv_snapshot_to_file` and `do_kv_restore_from_file` of user/daemon/daemon.cpp.
pub mod Save
pub mod Restore
pub mod Reload
use kvstore_lkm.Prelude.{
  ℕ, suc, ◌+◌, Bool, not, ◌||◌, Option, none, some, List, [], ◌∷◌, ◌++◌, ◌==◌, if◌then◌else◌, ℤ,
  pos, is_neg, eq_nat, replicate, take,
}
use kvstore_lkm.Message.{kv_insert, kv_snapshot, kv_count, KvMessage, KvSnapshotMessage, zero_value}
use kvstore_lkm.Hash.Table.{Hashing, Kernel}
use kvstore_lkm.Device.Handlers.{Env}
use kvstore_lkm.Device.Ioctl.{kv_ioctl}

-- The bytes of the snapshot file, as the header and the messages that they are the image of. A file
-- that was cut short holds fewer messages than its header counts.
pub record SnapshotFile : Type 0 where
  pub status : ℤ
  pub capacity : ℕ
  pub count : ℕ
  pub entries : List KvMessage

abbrev pub zero_message : KvMessage
zero_message = record { status = pos 0; key = 0; value = zero_value }

abbrev pub empty_message : KvSnapshotMessage
empty_message = record { status = pos 0; capacity = 0; count = 0; entries = [] }

-- What the rest of the system does during one snapshot: its two calls, what the other threads do to
-- the store between them, and whether memory and the file can be had.
pub record Saving : Type 0 where
  pub count_env : Env
  pub between : Kernel → Kernel
  pub snapshot_env : Env
  pub calloc_ok : Bool
  pub open_ok : Bool

-- `out.write` of the header and of the first `count` messages.
abbrev pub image : KvSnapshotMessage → SnapshotFile
image s = record {
  status = s.status;
  capacity = s.capacity;
  count = s.count;
  entries = take s.count s.entries;
}

-- The block for `entry_count` messages that goes to the device, zeroed.
abbrev pub asked_for : ℕ → KvSnapshotMessage
asked_for entry_count = record empty_message {
  capacity = entry_count;
  entries = replicate entry_count zero_message;
}

module _ ⦃hashing : Hashing⦄ where
  -- With `entry_count` known: the second call and the write.
  unfoldable pub write_snapshot :
      Saving → ℕ → Option SnapshotFile → Kernel → Option SnapshotFile × Kernel
  unfolding take
  write_snapshot s entry_count file k =
      let (ret, mem, k') =
        kv_ioctl s.snapshot_env kv_snapshot
          (record { message = zero_message; snapshot = asked_for entry_count; counter = 0 })
          (s.between k) in
      if is_neg ret
      then (file, k')
      else if not s.open_ok
      then (file, k')
      else (some (image mem.snapshot), k')

  -- The file and the state afterwards.
  unfoldable pub do_kv_snapshot_to_file :
      Saving → Option SnapshotFile → Kernel → Option SnapshotFile × Kernel
  do_kv_snapshot_to_file s file k =
      let (ret, mem, k') =
        kv_ioctl s.count_env kv_count
          (record { message = zero_message; snapshot = empty_message; counter = 0 }) k in
      if is_neg ret
      then (file, k')
      else if mem.counter == 0
      then (file, k')
      else if not s.calloc_ok
      then (file, k')
      else write_snapshot s mem.counter file k'

  -- The loop over the entries, from the i-th call on. The status that it tests is the header's.
  unfoldable pub restore_entries :
      (ℕ → Env) → ℤ → ℕ → List KvMessage → ℕ × ℕ → Kernel → (ℕ × ℕ) × Kernel
  restore_entries envs header_status i [] counts k = (counts, k)
  restore_entries envs header_status i (entry ∷ entries) (restored, skipped) k =
      let (ret, mem, k') =
        kv_ioctl (envs i) kv_insert
          (record { message = entry; snapshot = empty_message; counter = 0 }) k in
      restore_entries envs header_status (suc i) entries
        (if is_neg ret || not (eq_nat header_status 0)
          then (restored, suc skipped)
          else (suc restored, skipped))
        k'

  -- The entries that the loop reads: those of the file, and, if it was cut short, what `malloc` left.
  unfoldable pub loaded : SnapshotFile → List KvMessage → List KvMessage
  unfolding take
  loaded f garbage = take f.count (f.entries ++ garbage)

  -- How many entries were counted as restored and as skipped, if there is a file.
  unfoldable pub do_kv_restore_from_file :
      (ℕ → Env) → List KvMessage → Option SnapshotFile → Kernel → Option (ℕ × ℕ) × Kernel
  unfolding restore_entries loaded
  do_kv_restore_from_file envs garbage none k = (none, k)
  do_kv_restore_from_file envs garbage (some f) k =
      let (counts, k') = restore_entries envs f.status 0 (loaded f garbage) (0, 0) k in
      (some counts, k')
