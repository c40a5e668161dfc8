-- ===== src/Device/Loading.antt =====
-- Loading and unloading the module of kernel/kvlkm.c.
use kvstore_lkm.Prelude.{
  past_guard, ℕ, ◌+◌, ◌^◌, ◌≡◌, refl, ◌∙◌, ◌⊎◌, inl, inr, Bool, true, false, ◌&&◌, not, Bool-cases,
  none, some, List, [], arith, if◌then◌else◌, ℤ, pos, neg, replicate,
}
use kvstore_lkm.Hash.Chain.{Chain}
use kvstore_lkm.Hash.Table.{Hashing, kv_store, Kernel, IsValid, enomem}
use kvstore_lkm.Hash.Ops.{kv_hash_init}
use kvstore_lkm.Hash.View.{contents}
use kvstore_lkm.Hash.Lifecycle.{init_succeeds, init_fails, destroy_leaks_locks}
use kvstore_lkm.Device.Module.{
  err_ptr, is_null, is_device, Boot, Module, module_bits, init_netpoll, after_init, init_table,
  init_module, after_destroy, cleanup_module,
}

-- Nothing is registered.
pub record IsOff (m : Module) : Type 0 where
  pub no_region : m.region ≡ false
  pub no_cdev : m.cdev ≡ false
  pub no_class : m.class ≡ false
  pub no_device : m.device ≡ false

module _ ⦃hashing : Hashing⦄ where
  -- The module is loaded, with an empty table; `device` says whether there is a device.
  pub record IsLoaded (others : ℕ) (device : Bool) (m : Module) : Type 0 where
    pub has_region : m.region ≡ true
    pub has_cdev : m.cdev ≡ true
    pub has_class : m.class ≡ true
    pub has_device : m.device ≡ device
    pub ready : IsValid others m.kernel (replicate (2 ^ module_bits) [])
    pub empty : (q : ℕ) → contents m.kernel q ≡ none

  abbrev pub Loads : ℕ → Boot → ℤ × Module → Type 0
  Loads others boot r =
      ((r.0 ≡ neg 1) × IsOff r.1 × (r.1.kernel.live ≡ others))
      ⊎ ((r.0 ≡ pos 0) × IsLoaded others (is_device boot.created) r.1)

  abbrev built : Boot → Module → ℤ × Kernel
  built boot m = kv_hash_init kv_store module_bits boot.buckets_ok boot.locks_ok m.kernel

  -- Everything but the table is there.
  abbrev Registered : Boot → Module → Type 0
  Registered boot m =
      (m.region ≡ true) × (m.cdev ≡ true) × (m.class ≡ true) × (m.device ≡ is_device boot.created)

  failed-Loads :
      (boot : Boot) (m : Module) (r : ℤ × Kernel) (others : ℕ)
      → r.0 ≡ neg enomem
      → r.1.live ≡ others
      → Loads others boot (after_init boot m r)
  unfolding after_init
  failed-Loads boot m (ret, k) others code live = rw code (
      inl (
        refl,
        record { no_region = refl; no_cdev = refl; no_class = refl; no_device = refl },
        live,
      ))

  if-IsLoaded :
      (b : Bool) (others : ℕ) (device : Bool) (m n : Module)
      → IsLoaded others device m
      → IsLoaded others device n
      → IsLoaded others device (if b then m else n)
  if-IsLoaded true others device m n h g = h
  if-IsLoaded false others device m n h g = g

  netpoll-IsLoaded :
      (boot : Boot) (others : ℕ) (device : Bool) (m : Module)
      → IsLoaded others device m
      → IsLoaded others device (init_netpoll boot m)
  unfolding init_netpoll
  netpoll-IsLoaded boot others device m h =
      if-IsLoaded (not boot.setup_ok) others device _ _ h (record {
        has_region = h.has_region;
        has_cdev = h.has_cdev;
        has_class = h.has_class;
        has_device = h.has_device;
        ready = h.ready;
        empty = h.empty;
      })

  good-Loads :
      (boot : Boot) (m : Module) (r : ℤ × Kernel) (others : ℕ)
      → Registered boot m
      → r.0 ≡ pos 0
      → IsValid others r.1 (replicate (2 ^ module_bits) [])
      → ((q : ℕ) → contents r.1 q ≡ none)
      → Loads others boot (after_init boot m r)
  good-Loads boot m (ret, k) others up code ready empty =
      unfold after_init in
      rw code (
        inr (
          refl,
          netpoll-IsLoaded boot others (is_device boot.created) (record m { kernel = k })
              (record {
                has_region = up.0;
                has_cdev = up.1;
                has_class = up.2;
                has_device = up.3;
                ready = ready;
                empty = empty;
              }),
        ))

  both_true : (a b : Bool) → (a && b) ≡ true → (a ≡ true) × (b ≡ true)
  both_true a b h = ground arith

  table-Loads :
      (boot : Boot) (m : Module)
      → m.kernel.held ≡ []
      → Registered boot m
      → Loads m.kernel.live boot (init_table boot m)
  unfolding init_table
  table-Loads boot m unlocked up = elim (Bool-cases (boot.buckets_ok && boot.locks_ok)) [
    | inr bad ↦
        let (code, _, live) = init_fails module_bits boot.buckets_ok boot.locks_ok m.kernel bad in
        failed-Loads boot m _ m.kernel.live code live
    | inl good ↦
        let (b, l) = both_true boot.buckets_ok boot.locks_ok good in
        let (code, ready, empty) =
          init_succeeds module_bits (omega arith) (omega arith) m.kernel unlocked in
        good-Loads boot m _ m.kernel.live up (rw (b, l) code) (rw (b, l) ready) (rw (b, l) empty)
  ]

  -- Loading is all or nothing. From a module that has nothing registered and holds no lock,
  -- `init_module` answers -1 with nothing registered and no block kept, or it answers 0 with the
  -- region, the cdev and the class registered and a valid table of 2^10 buckets with no key; in the
  -- second case there is a device exactly if `device_create` made one.
  pub init_module-Loads :
      (boot : Boot) (m : Module)
      → m.kernel.held ≡ []
      → IsOff m
      → Loads m.kernel.live boot (init_module boot m)
  unfolding init_module
  init_module-Loads boot m unlocked off = if-Loads (not boot.region_ok) (inl (refl, off, refl)) (
      if-Loads (not boot.cdev_ok) (undone m.cdev m.class off.no_cdev off.no_class) (
        if-Loads (not boot.class_ok) (undone false m.class refl off.no_class) (
          if-Loads (is_null boot.created) (undone false false refl refl) (
            table-Loads boot
              (record m {
                region = true;
                cdev = true;
                class = true;
                device = is_device boot.created;
              })
              unlocked (refl, refl, refl, refl)))))
    where
      if-Loads :
          (b : Bool) {r s : ℤ × Module}
          → Loads m.kernel.live boot r
          → Loads m.kernel.live boot s
          → Loads m.kernel.live boot (if b then r else s)
      if-Loads true h g = h
      if-Loads false h g = g

      undone :
          (cdev class : Bool)
          → cdev ≡ false
          → class ≡ false
          → Loads m.kernel.live boot
              (neg 1, record m { region = false; cdev = cdev; class = class })
      undone cdev class g h = inl (
        refl,
        record { no_region = refl; no_cdev = g; no_class = h; no_device = off.no_device },
        refl,
      )

  -- What a successful `kv_hash_init` leaves of the device.
  after_good :
      (boot : Boot) (m : Module) (r : ℤ × Kernel)
      → r.0 ≡ pos 0
      → ((after_init boot m r).0 ≡ pos 0) × ((after_init boot m r).1.device ≡ m.device)
  unfolding after_init
  after_good boot m (ret, k) code = ground arith

  -- If all else succeeds and no lock is held, an ERR_PTR from `device_create` is not noticed:
  -- `init_module` answers 0 without a device.
  pub init_module_misses_error :
      (boot : Boot) (m : Module)
      → m.kernel.held ≡ []
      → (boot.region_ok ≡ true) × (boot.cdev_ok ≡ true) × (boot.class_ok ≡ true)
      → boot.created ≡ err_ptr
      → (boot.buckets_ok ≡ true) × (boot.locks_ok ≡ true)
      → ((init_module boot m).0 ≡ pos 0) × ((init_module boot m).1.device ≡ false)
  init_module_misses_error boot m unlocked up failed memory =
      let m' = record m {
        region = true;
        cdev = true;
        class = true;
        device = is_device boot.created;
      } in
      let reached : init_module boot m ≡ init_table boot m' =
        unfold init_module in
        (past_guard boot.region_ok _ _ up.0
          ∙ past_guard boot.cdev_ok _ _ up.1
          ∙ past_guard boot.class_ok _ _ up.2
          ∙ rw failed refl) in
      let (code, _, _) = init_succeeds module_bits (omega arith) (omega arith) m.kernel unlocked in
      let (done, kept) = after_good boot m' (built boot m) (rw (memory.0, memory.1) code) in
      rw reached (unfold init_table in (done, kept ∙ rw failed refl))

  -- `cleanup_module` of a module with a valid table ends, takes every registration and the netpoll
  -- back, and leaves exactly one block of the table allocated.
  pub cleanup_module-IsOff :
      {others : ℕ} {bs : List Chain} (boot : Boot) (m : Module)
      → IsValid others m.kernel bs
      → (m' : Module) × (cleanup_module boot m ≡ some m')
        × IsOff m'
        × (m'.netpoll ≡ false)
        × (m'.kernel.live ≡ others + 1)
  cleanup_module-IsOff boot m valid =
      let (k, run, _, live, _) = destroy_leaks_locks valid in
      (
        after_destroy boot m k,
        unfold cleanup_module in rw (run, cleanup_module),
        unfold after_destroy in
            record { no_region = refl; no_cdev = refl; no_class = refl; no_device = refl },
        unfold after_destroy in refl,
        unfold after_destroy in live,
      )
