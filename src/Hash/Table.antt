-- ===== src/Hash/Table.antt =====
-- kernel/kv_hash.h: the table, and what the functions of kernel/kv_hash.c use of the kernel:
-- `kmalloc`, `kfree` and the spin locks.
use kvstore_lkm.Prelude.{
  ℕ, ◌+◌, ◌-◌, ◌*◌, ◌%◌, ◌^◌, ◌≤◌, ◌<◌, ◌≡◌, ◌≢◌, Bool, true, false, ◌||◌, Option, some, List, [],
  ◌∷◌, ◌==◌, if◌then◌else◌, length, get_or, flatten,
}
use kvstore_lkm.Hash.Chain.{Chain, occurs, AllStrings}

-- `hash_min` of <linux/hashtable.h>.
pub record Hashing : Type 0 where
  pub hash_min : ℕ → ℕ → ℕ
  pub hash_min-lt : (key bits : ℕ) → 0 < bits → bits < 32 → hash_min key bits < 2 ^ bits

-- A NULL array is `none`. Of the lock array only its length is kept: who holds a lock is `held`.
pub record HashTable : Type 0 where
  pub buckets : Option (List Chain)
  pub bucket_locks : Option ℕ
  pub bits : ℕ

-- A table pointer: NULL, or the one table of the module.
pub data TablePtr : Type 0 where
  null kv_store : TablePtr

-- The table with the state of the running thread and of the allocator: how many blocks are
-- allocated and not yet freed, the buckets whose lock the thread holds, and whether it asked for
-- memory that it may have to sleep for (GFP_KERNEL) while it held one.
pub record Kernel : Type 0 where
  pub table : HashTable
  pub live : ℕ
  pub held : List ℕ
  pub slept : Bool

abbrev pub einval : ℕ
einval = 22

abbrev pub enomem : ℕ
enomem = 12

abbrev pub enoent : ℕ
enoent = 2

abbrev pub enospc : ℕ
enospc = 28

abbrev pub is_held : List ℕ → Bool
is_held [] = false
is_held (b ∷ bs) = true

-- `kmalloc(…, GFP_KERNEL)`, which returns NULL or a block.
unfoldable pub kmalloc : Bool → Kernel → Kernel
kmalloc ok k = record k { live = k.live + (if ok then 1 else 0); slept = k.slept || is_held k.held }

unfoldable pub kfree : Kernel → Kernel
kfree k = record k { live = k.live - 1 }

abbrev pub release : ℕ → List ℕ → List ℕ
release b [] = []
release b (c ∷ cs) = if b == c then cs else c ∷ release b cs

-- `spin_lock_irqsave(&ht->bucket_locks[b], flags)`, where no other thread is in the way.
unfoldable pub spin_lock : ℕ → Kernel → Kernel
spin_lock b k = record k { held = b ∷ k.held }

unfoldable pub spin_unlock : ℕ → Kernel → Kernel
spin_unlock b k = record k { held = release b k.held }

-- The bucket array is written through `ht->buckets`.
unfoldable pub put_buckets : List Chain → Kernel → Kernel
put_buckets bs k = record k { table = record k.table { buckets = some bs } }

-- `1U << bits`
abbrev pub bucket_count : ℕ → ℕ
bucket_count bits = 2 ^ bits % 2 ^ 32

module _ ⦃hashing : Hashing⦄ where
  unfoldable pub kv_bucket : HashTable → ℕ → ℕ
  kv_bucket ht key = hashing.hash_min key ht.bits

  -- A key occurs at most once, and only in its own bucket.
  abbrev pub IsPlaced : ℕ → List Chain → Type 0
  IsPlaced bits bs =
      (q i : ℕ)
      → (occurs q (get_or bs i []) ≤ 1)
        × (hashing.hash_min q bits ≢ i → occurs q (get_or bs i []) ≡ 0)

  -- A table that is ready for use, with its buckets; `others` blocks belong to other parts of the
  -- kernel, and the running thread holds no lock.
  pub record IsValid (others : ℕ) (k : Kernel) (bs : List Chain) : Type 0 where
    pub ready : k.table.buckets ≡ some bs
    pub locks : k.table.bucket_locks ≡ some (2 ^ k.table.bits)
    pub some_bits : 0 < k.table.bits
    pub few_bits : k.table.bits < 32
    pub width : length bs ≡ 2 ^ k.table.bits
    pub placed : IsPlaced k.table.bits bs
    pub strings : (i : ℕ) → AllStrings (get_or bs i [])
    pub balanced : k.live ≡ others + 2 + 2 * length (flatten bs)
    pub unlocked : k.held ≡ []
