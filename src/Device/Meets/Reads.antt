-- ===== src/Device/Meets/Reads.antt =====
-- `_handle_get` and `_handle_delete` of kernel/kvlkm.c against their promises.
use kvstore_lkm.Prelude.{
  ℕ, ◌≡◌, refl, ◌∙◌, inl, inr, Option-cases, Option, none, some, List, ◌++◌, arith, if◌then◌else◌,
  ℤ, pos, negsuc, neg, is_neg, codes, length,
}
use kvstore_lkm.Text.{decimal}
use kvstore_lkm.Message.{KvMessage, zero_value}
use kvstore_lkm.Hash.Chain.{Chain}
use kvstore_lkm.Hash.Table.{Hashing, kv_store, Kernel, IsValid, enoent}
use kvstore_lkm.Hash.View.{Contents, update, contents, is_found, Puts}
use kvstore_lkm.Hash.Ops.{kv_hash_remove}
use kvstore_lkm.Hash.Remove.{kv_hash_remove_lem}
use kvstore_lkm.Device.Handlers.{Env, handle_get, handle_delete}
use kvstore_lkm.Device.Spec.{seen, refused, spec_get, spec_delete}
use kvstore_lkm.Device.Meets.{Meets, lookup_seen, lookup_unseen, unchanged, looked}

update_absent : (f : Contents) (key q : ℕ) → f key ≡ none → update f key none q ≡ f q
update_absent f key q h = ground arith

module _ ⦃hashing : Hashing⦄ {others : ℕ} {k : Kernel} {bs : List Chain}
    (valid : IsValid others k bs) (env : Env) (msg : KvMessage) where
  get_run_seen :
      (n : ℕ) (out : List ℕ)
      → looked valid env msg ≡ (pos n, some out, k)
      → handle_get msg k ≡ (pos 0, record msg { status = pos 0; value = out }, k)
  unfolding handle_get
  get_run_seen n out e = rw (e, handle_get)

  get_run_unseen :
      (n : ℕ)
      → looked valid env msg ≡ (negsuc n, some zero_value, k)
      → handle_get msg k ≡ (
        pos 0,
        refused
            (record msg { value = zero_value })
            (codes "Key '" ++ decimal msg.key ++ codes "' does not exist"),
        k,
      )
  get_run_unseen n e = unfold handle_get in rw (e, handle_get)

  pub get-Meets : Meets others (handle_get msg k) (spec_get msg (contents k))
  get-Meets = elim (Option-cases (seen (contents k msg.key))) [
    | inr (v, e) ↦
        rw (e, spec_get, get_run_seen (length v) _ (lookup_seen valid env msg v e))
          (unchanged valid env msg _)
    | inl e ↦
        let (n, run) = lookup_unseen valid env msg e in
        rw (e, spec_get, get_run_unseen n run) (unchanged valid env msg _)
  ]

  delete_end : ℤ × Kernel → ℤ × KvMessage × Kernel
  delete_end (ret, k₁) =
      if is_neg ret
      then (pos 0, refused msg (codes "Failed to delete key.\n"), k₁)
      else (pos 0, record msg { status = pos 0 }, k₁)

  delete_run : handle_delete msg k ≡ delete_end (kv_hash_remove kv_store msg.key k)
  unfolding handle_delete delete_end
  delete_run = refl

  delete_end-Meets :
      (o : Option (List ℕ)) (r : ℤ × Kernel)
      → contents k msg.key ≡ o
      → r.0 ≡ (if is_found o then pos 0 else neg enoent)
      → Puts others k msg.key none r.1
      → Meets others (delete_end r) (spec_delete msg (contents k))
  unfolding delete_end
  delete_end-Meets none (ret, k₁) e code puts =
      rw (code, e, spec_delete)
        (record {
          code = refl;
          message = refl;
          chains = puts.chains;
          valid = puts.valid;
          reads = λ q. puts.reads q ∙ update_absent (contents k) msg.key q e;
        })
  delete_end-Meets (some v) (ret, k₁) e code puts =
      rw (code, e, spec_delete)
        (record {
          code = refl;
          message = refl;
          chains = puts.chains;
          valid = puts.valid;
          reads = puts.reads;
        })

  pub delete-Meets : Meets others (handle_delete msg k) (spec_delete msg (contents k))
  delete-Meets =
      let (code, puts) = kv_hash_remove_lem valid msg.key in
      rw delete_run (delete_end-Meets (contents k msg.key) _ refl code puts)
