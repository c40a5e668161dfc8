-- ===== src/Device/Meets/Writes.antt =====
-- `_handle_insert` and `_handle_update` of kernel/kvlkm.c against their promises.
use kvstore_lkm.Prelude.{
  ℕ, ◌≡◌, inl, inr, Option-cases, Option, some, List, ◌++◌, ℤ, pos, negsuc, codes, length,
}
use kvstore_lkm.Text.{decimal}
use kvstore_lkm.Message.{KvMessage}
use kvstore_lkm.Hash.Chain.{Chain}
use kvstore_lkm.Hash.Table.{Hashing, kv_store, Kernel, IsValid}
use kvstore_lkm.Hash.View.{contents}
use kvstore_lkm.Hash.Ops.{kv_hash_add}
use kvstore_lkm.Device.Handlers.{Env, handle_insert, handle_update}
use kvstore_lkm.Device.Spec.{seen, refused, spec_insert, spec_update}
use kvstore_lkm.Device.Meets.{
  Meets, lookup_seen, lookup_unseen, unchanged, write_end, added-Meets, looked,
}

module _ ⦃hashing : Hashing⦄ {others : ℕ} {k : Kernel} {bs : List Chain}
    (valid : IsValid others k bs) (env : Env) (msg : KvMessage) where
  abbrev added : ℤ × Kernel
  added = kv_hash_add kv_store msg.key (some (msg.value ++ env.beyond)) env.dup_ok env.node_ok k

  insert_run_seen :
      (n : ℕ) (out : Option (List ℕ))
      → looked valid env msg ≡ (pos n, out, k)
      → handle_insert env msg k ≡ (pos 0, refused msg (codes "Key exists. Use update.\n"), k)
  unfolding handle_insert
  insert_run_seen n out e = rw (e, handle_insert)

  insert_run_unseen :
      (n : ℕ) (out : Option (List ℕ))
      → looked valid env msg ≡ (negsuc n, out, k)
      → handle_insert env msg k ≡ write_end valid env msg (codes "Insert failed.\n") added
  unfolding handle_insert write_end
  insert_run_unseen n out e = rw (e, handle_insert)

  pub insert-Meets : Meets others (handle_insert env msg k) (spec_insert env msg (contents k))
  insert-Meets = elim (Option-cases (seen (contents k msg.key))) [
    | inr (v, e) ↦
        rw (e, spec_insert, insert_run_seen (length v) _ (lookup_seen valid env msg v e))
          (unchanged valid env msg _)
    | inl e ↦
        let (n, run) = lookup_unseen valid env msg e in
        rw (e, spec_insert, insert_run_unseen n _ run) (added-Meets valid env msg _)
  ]

  update_run_seen :
      (n : ℕ) (out : Option (List ℕ))
      → looked valid env msg ≡ (pos n, out, k)
      → handle_update env msg k ≡ write_end valid env msg (codes "Update failed.\n") added
  unfolding handle_update write_end
  update_run_seen n out e = rw (e, handle_update)

  update_run_unseen :
      (n : ℕ) (out : Option (List ℕ))
      → looked valid env msg ≡ (negsuc n, out, k)
      → handle_update env msg k ≡ (
        pos 0,
        refused msg (codes "Cannot update non-existent key: " ++ decimal msg.key ++ codes "\n"),
        k,
      )
  update_run_unseen n out e = unfold handle_update in rw (e, handle_update)

  pub update-Meets : Meets others (handle_update env msg k) (spec_update env msg (contents k))
  update-Meets = elim (Option-cases (seen (contents k msg.key))) [
    | inr (v, e) ↦
        rw (e, spec_update, update_run_seen (length v) _ (lookup_seen valid env msg v e))
          (added-Meets valid env msg _)
    | inl e ↦
        let (n, run) = lookup_unseen valid env msg e in
        rw (e, spec_update, update_run_unseen n _ run) (unchanged valid env msg _)
  ]
