-- ===== src/Hash/Locks/Sections.antt =====
-- What a call of kernel/kv_hash.c does under its lock, against the operation as a whole.
use kvstore_lkm.Prelude.{
  ℕ, zero, suc, ◌≡◌, refl, sym, ap, ◌∙◌, inl, inr, Bool, true, Bool-cases, Option, none, some,
  Option-cases, List, [], ◌∷◌, ◌<◌, get_or, set, arith, ℤ,
}
use kvstore_lkm.Text.{c_string}
use kvstore_lkm.Hash.Chain.{Chain, find}
use kvstore_lkm.Hash.Table.{
  Hashing, kv_store, Kernel, kv_bucket, kmalloc, kfree, spin_lock, spin_unlock, put_buckets,
}
use kvstore_lkm.Hash.Ops.{
  kv_hash_add, kv_hash_remove, kv_hash_lookup, add_locked, remove_locked, lookup_locked,
}
use kvstore_lkm.Hash.Locks.{adding, removing, looking, Answer, section_of}

set-get_or : {A : Type 0} (xs : List A) (i : ℕ) (d : A) → set xs i (get_or xs i d) ≡ xs
unfolding set get_or
set-get_or [] i d = refl
set-get_or (x ∷ xs) zero d = refl
set-get_or (x ∷ xs) (suc i) d = ap (λ r. x ∷ r) (set-get_or xs i d)

-- An operation answers what the section does, and writes its chain into the bucket.
pub record Answers (bits : ℕ) (bs : List Chain) (b : ℕ) (s : Answer × Chain) (r : Answer × Kernel)
    : Type 0 where
  pub answer : r.0 ≡ s.0
  pub buckets : r.1.table.buckets ≡ some (set bs b s.1)
  pub same_bits : r.1.table.bits ≡ bits

abbrev pub with_no_buffer : ℤ × Kernel → Answer × Kernel
with_no_buffer r = ((r.0, []), r.1)

abbrev pub held_in : Option (List ℕ) → List ℕ
held_in none = []
held_in (some out_buf) = out_buf

abbrev pub with_buffer : ℤ × Option (List ℕ) × Kernel → Answer × Kernel
with_buffer r = ((r.0, held_in r.1), r.2)

module _ ⦃hashing : Hashing⦄ (bs : List Chain) where
  -- A bucket that is written with its own chain.
  kept :
      (b : ℕ) (k : Kernel)
      → k.table.buckets ≡ some bs
      → k.table.buckets ≡ some (set bs b (get_or bs b []))
  kept b k ready = ready ∙ ap some (sym (set-get_or bs b []))

  add_section :
      (b key : ℕ) (newstr : List ℕ) (node_ok : Bool) (k : Kernel)
      → k.table.buckets ≡ some bs
      → Answers k.table.bits bs b
          (section_of (adding key newstr node_ok) (get_or bs b []))
          (with_no_buffer (add_locked b bs key newstr node_ok k))
  unfolding section_of add_locked kmalloc kfree spin_unlock put_buckets
  add_section b key newstr node_ok k ready = elim (Option-cases (find key (get_or bs b []))) [
    | inr (v, e) ↦
        rw (e, add_locked, section_of) record { answer = refl; buckets = refl; same_bits = refl }
    | inl e ↦ elim (Bool-cases node_ok) [
      | inl ok ↦
          rw (e, ok, add_locked, section_of)
            record { answer = refl; buckets = refl; same_bits = refl }
      | inr failed ↦
          rw (e, failed, add_locked, section_of)
            record { answer = refl; buckets = kept b k ready; same_bits = refl }
    ]
  ]

  remove_section :
      (b key : ℕ) (k : Kernel)
      → k.table.buckets ≡ some bs
      → Answers k.table.bits bs b
          (section_of (removing key) (get_or bs b []))
          (with_no_buffer (remove_locked b bs key k))
  unfolding section_of remove_locked kfree spin_unlock put_buckets
  remove_section b key k ready = elim (Option-cases (find key (get_or bs b []))) [
    | inr (v, e) ↦
        rw (e, remove_locked, section_of) record { answer = refl; buckets = refl; same_bits = refl }
    | inl e ↦
        rw (e, remove_locked, section_of)
          record { answer = refl; buckets = kept b k ready; same_bits = refl }
  ]

  module _ (key : ℕ) (k : Kernel) (ready : k.table.buckets ≡ some bs) where
    abbrev b : ℕ
    b = kv_bucket k.table key

    add_run :
        (value : List ℕ) (node_ok : Bool)
        → kv_hash_add kv_store key (some value) true node_ok k
          ≡ add_locked b bs key (c_string value) node_ok (spin_lock b (kmalloc true k))
    unfolding kv_hash_add
    add_run value node_ok = ground (arith, ready)

    pub add_whole :
        (value : List ℕ) (node_ok : Bool)
        → Answers k.table.bits bs b
            (section_of (adding key (c_string value) node_ok) (get_or bs b []))
            (with_no_buffer (kv_hash_add kv_store key (some value) true node_ok k))
    unfolding spin_lock kmalloc
    add_whole value node_ok =
        rw (add_run value node_ok)
          (add_section b key (c_string value) node_ok (spin_lock b (kmalloc true k)) ready)

    remove_run : kv_hash_remove kv_store key k ≡ remove_locked b bs key (spin_lock b k)
    unfolding kv_hash_remove
    remove_run = ground (arith, ready)

    pub remove_whole :
        Answers k.table.bits bs b
          (section_of (removing key) (get_or bs b []))
          (with_no_buffer (kv_hash_remove kv_store key k))
    unfolding spin_lock
    remove_whole = rw remove_run (remove_section b key (spin_lock b k) ready)

    pub lookup_run :
        (out_buf : List ℕ) (out_buflen : ℕ)
        → 0 < out_buflen
        → kv_hash_lookup kv_store key (some out_buf) out_buflen k ≡ (
          (lookup_locked (get_or bs b []) key out_buf out_buflen).0,
          some (lookup_locked (get_or bs b []) key out_buf out_buflen).1,
          spin_unlock b (spin_lock b k),
        )
    unfolding kv_hash_lookup
    lookup_run out_buf out_buflen room = ground (arith, ready, room)

    pub lookup_whole :
        (out_buf : List ℕ) (out_buflen : ℕ)
        → 0 < out_buflen
        → Answers k.table.bits bs b
            (section_of (looking key out_buf out_buflen) (get_or bs b []))
            (with_buffer (kv_hash_lookup kv_store key (some out_buf) out_buflen k))
    unfolding section_of
    lookup_whole out_buf out_buflen room = rw (lookup_run out_buf out_buflen room) (
        unfold spin_lock spin_unlock in
        record { answer = refl; buckets = kept b k ready; same_bits = refl })
