-- ===== src/Device/Module.antt =====
-- kernel/kvlkm.c and kernel/kvlkm.h: loading and unloading the module, and its netpoll messages.
use kvstore_lkm.Prelude.{
  ℕ, ◌+◌, ◌*◌, Bool, true, false, not, Option, none, some, List, [], ◌∷◌, ◌++◌, if◌then◌else◌, ℤ,
  pos, neg, is_neg, codes,
}
use kvstore_lkm.Hash.Table.{kv_store, Kernel}
use kvstore_lkm.Hash.Ops.{kv_hash_init, kv_hash_destroy}

-- What `device_create` returns: a device, an ERR_PTR, or NULL.
pub data Created : Type 0 where
  device_ptr err_ptr null_ptr : Created

abbrev pub is_null : Created → Bool
is_null null_ptr = true
is_null _ = false

abbrev pub is_device : Created → Bool
is_device device_ptr = true
is_device _ = false

-- The mode of the device file, if it is asked for, and no name: 0666.
abbrev pub kv_devnode : Option ℕ → Option ℕ × Option (List ℕ)
kv_devnode none = (none, none)
kv_devnode (some mode) = (some (6 * 64 + 6 * 8 + 6), none)

-- What the rest of the kernel answers while the module is loaded or unloaded.
pub record Boot : Type 0 where
  pub region_ok : Bool
  pub cdev_ok : Bool
  pub class_ok : Bool
  pub created : Created
  pub buckets_ok : Bool
  pub locks_ok : Bool
  pub setup_ok : Bool
  pub send_ok : Bool

-- What the module has registered, the messages that it sent, and the state of its table.
pub record Module : Type 0 where
  pub kernel : Kernel
  pub region : Bool
  pub cdev : Bool
  pub class : Bool
  pub device : Bool
  pub netpoll : Bool
  pub sent : List (List ℕ)

unfoldable pub netpoll_send_udp : Boot → List ℕ → Module → Module
netpoll_send_udp boot text m = record m {
  sent = m.sent ++ (if boot.send_ok then text ∷ [] else []);
}

unfoldable pub init_netpoll : Boot → Module → Module
unfolding netpoll_send_udp
init_netpoll boot m =
    if not boot.setup_ok
    then m
    else netpoll_send_udp boot (codes "kvlkm initialized\n") (record m { netpoll = true })

-- The table gets 2 ^ 10 buckets.
abbrev pub module_bits : ℕ
module_bits = 10

-- What `init_module` does with the answer of `kv_hash_init`.
unfoldable pub after_init : Boot → Module → ℤ × Kernel → ℤ × Module
unfolding init_netpoll
after_init boot m (ret, k) =
    if is_neg ret
    then (
      neg 1,
      record m { kernel = k; device = false; class = false; cdev = false; region = false },
    )
    else (pos 0, init_netpoll boot (record m { kernel = k }))

-- The last steps of `init_module`, when the device is there.
unfoldable pub init_table : Boot → Module → ℤ × Module
init_table boot m =
    after_init boot m (kv_hash_init kv_store module_bits boot.buckets_ok boot.locks_ok m.kernel)

unfoldable pub init_module : Boot → Module → ℤ × Module
init_module boot m =
    if not boot.region_ok
    then (neg 1, m)
    else let m₁ = record m { region = true } in
      if not boot.cdev_ok
      then (neg 1, record m₁ { region = false })
      else let m₂ = record m₁ { cdev = true } in
        if not boot.class_ok
        then (neg 1, record m₂ { cdev = false; region = false })
        else let m₃ = record m₂ { class = true } in
          if is_null boot.created
          then (neg 1, record m₃ { class = false; cdev = false; region = false })
          else init_table boot (record m₃ { device = is_device boot.created })

-- What `cleanup_module` does once the table is destroyed. The message goes out before netpoll is
-- shut down.
unfoldable pub after_destroy : Boot → Module → Kernel → Module
unfolding netpoll_send_udp
after_destroy boot m k =
    let m' = record m { kernel = k; device = false; class = false; cdev = false; region = false } in
    record (netpoll_send_udp boot (codes "KV Store unloaded\n") m') { netpoll = false }

-- `none` is the fault of `kv_hash_destroy`.
unfoldable pub cleanup_module : Boot → Module → Option Module
cleanup_module boot m = elim (kv_hash_destroy kv_store m.kernel) [
  | none ↦ none
  | some k ↦ some (after_destroy boot m k)
]
