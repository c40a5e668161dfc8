-- ===== src/Tests/Device.antt =====
-- The device of kernel/kvlkm.c at small inputs.
use kvstore_lkm.Prelude.{
  ℕ, ◌≡◌, ◌≢◌, refl, true, false, some, List, [], ◌∷◌, ◌++◌, arith, pos, replicate, flatten, drop,
  length-replicate,
}
use kvstore_lkm.Text.{c_string, NoNul}
use kvstore_lkm.Message.{kv_insert, kv_get, kv_delete, KvMessage, KvSnapshotMessage}
use kvstore_lkm.Hash.View.{contents}
use kvstore_lkm.Hash.Snapshot.{messages}
use kvstore_lkm.Device.Ioctl.{handle_kv_message, handle_kv_snapshot}
use kvstore_lkm.Device.Spec.{seen}
use kvstore_lkm.Device.Refine.{Request, spec_serve, serve, Serves, serve-refines}
use kvstore_lkm.Device.Values.{IsTerminated, IsShort, serve-IsShort}
use kvstore_lkm.Device.RoundTrip.{then_get, insert_overrun}
use kvstore_lkm.Device.Snapshot.{snapshot_sent}
use kvstore_lkm.Device.Module.{Boot, Module, device_ptr, init_module, cleanup_module}
use kvstore_lkm.Device.Loading.{IsOff, Loads, init_module-Loads, cleanup_module-IsOff}
use kvstore_lkm.Tests.World.{
  low_bits, program, off, empty, empty-IsValid, empty-IsShort, hi, one, one-IsValid, one_chains,
  one_few, one_there, one_lacks, blank, calm, calm-IsLucky,
}

abbrev four_hi : KvMessage
four_hi = record { status = pos 0; key = 4; value = hi }

abbrev get_four : KvMessage
get_four = record blank { key = 4 }

abbrev delete_three : KvMessage
delete_three = record blank { key = 3 }

abbrev requests : List Request
requests =
    record { env = calm; cmd = kv_insert; message = four_hi }
    ∷ record { env = calm; cmd = kv_delete; message = delete_three }
    ∷ record { env = calm; cmd = kv_get; message = get_four }
    ∷ []

serve-refines_example : Serves 5 (serve requests one) (spec_serve requests (contents one))
serve-refines_example = serve-refines requests one-IsValid

hi-IsTerminated : IsTerminated four_hi
unfolding program
hi-IsTerminated = record { size = refl; ends = omega arith }

blank-IsTerminated : (n : ℕ) → IsTerminated (record blank { key = n })
unfolding program
blank-IsTerminated n = record { size = refl; ends = omega arith }

serve-IsShort_example :
    IsShort (contents (serve requests empty).1)
    × ((q : ℕ) → seen (contents (serve requests empty).1 q) ≡ contents (serve requests empty).1 q)
serve-IsShort_example =
    serve-IsShort requests empty-IsValid
      (hi-IsTerminated, (blank-IsTerminated 3, (blank-IsTerminated 4, tt))) empty-IsShort

NoNul-replicate : (n b : ℕ) → b ≢ 0 → NoNul (replicate n b)
unfolding replicate
NoNul-replicate ℕ.zero b h = tt
NoNul-replicate (ℕ.suc n) b h = (h, NoNul-replicate n b h)

abbrev four_full : KvMessage
four_full = record { status = pos 0; key = 4; value = replicate 64 65 }

insert_overrun_example :
    (contents (handle_kv_message calm kv_insert four_full one).2 4
      ≡ some (replicate 64 65 ++ 7 ∷ []))
    × ((then_get calm four_full calm get_four one).0 ≡ pos 0)
    × ((then_get calm four_full calm get_four one).1.status ≡ pos 1)
unfolding c_string
insert_overrun_example =
    insert_overrun one-IsValid calm calm four_full get_four calm-IsLucky calm-IsLucky one_lacks refl
      (NoNul-replicate 64 65 (λ e. omega (arith, e))) (length-replicate {A = ℕ} 64 65)

abbrev room_for : ℕ → KvSnapshotMessage
room_for n = record { status = pos 0; capacity = n; count = 0; entries = replicate n blank }

snapshot_sent_example :
    (msg : KvSnapshotMessage) × (handle_kv_snapshot calm (room_for 1) one ≡ (pos 0, msg, one))
    × (msg.status ≡ pos 0)
    × (msg.capacity ≡ 1)
    × (msg.count ≡ 1)
    × (msg.entries ≡ messages (flatten one_chains) ++ drop 1 (room_for 1).entries)
unfolding program
snapshot_sent_example = snapshot_sent one-IsValid one_few calm (room_for 1) refl refl refl one_there

abbrev unloaded : Module
unloaded = record {
  kernel = off;
  region = false;
  cdev = false;
  class = false;
  device = false;
  netpoll = false;
  sent = [];
}

abbrev boot : Boot
boot = record {
  region_ok = true;
  cdev_ok = true;
  class_ok = true;
  created = device_ptr;
  buckets_ok = true;
  locks_ok = true;
  setup_ok = true;
  send_ok = true;
}

init_module-Loads_example : Loads 5 boot (init_module boot unloaded)
init_module-Loads_example =
    init_module-Loads boot unloaded refl
      (record { no_region = refl; no_cdev = refl; no_class = refl; no_device = refl })

cleanup_module-IsOff_example :
    (m' : Module) × (cleanup_module boot (record unloaded { kernel = one }) ≡ some m')
    × IsOff m'
    × (m'.netpoll ≡ false)
    × (m'.kernel.live ≡ 6)
cleanup_module-IsOff_example =
    cleanup_module-IsOff boot (record unloaded { kernel = one }) one-IsValid
