-- ===== src/Device/Meets.antt =====
-- Each handler of kernel/kvlkm.c against its promise in Device/Spec: what the handlers share.
pub mod Writes
pub mod Reads
use kvstore_lkm.Prelude.{
  ℕ, ◌≡◌, refl, ap, ◌∙◌, Bool, true, false, Option, none, some, List, [], ◌∷◌, ◌++◌, arith,
  if◌then◌else◌, ℤ, pos, negsuc, neg, is_neg, length,
}
use kvstore_lkm.Text.{overwrite}
use kvstore_lkm.Message.{KvMessage, max_value_len, zero_value}
use kvstore_lkm.Hash.Chain.{Chain}
use kvstore_lkm.Hash.Table.{Hashing, kv_store, Kernel, IsValid, enomem}
use kvstore_lkm.Hash.View.{Contents, update, contents, Puts}
use kvstore_lkm.Hash.Ops.{kv_hash_lookup, kv_hash_add}
use kvstore_lkm.Hash.Add.{add_succeeds, kv_hash_add_lem}
use kvstore_lkm.Hash.Lookup.{lookup_reply, kv_hash_lookup_lem}
use kvstore_lkm.Device.Handlers.{Env, put_value}
use kvstore_lkm.Device.Spec.{seen, spec_write}

update_self : (f : Contents) (key q : ℕ) → update f key (f key) q ≡ f q
update_self f key q = ground arith

lookup_reply-seen :
    (o : Option (List ℕ)) (buf v : List ℕ)
    → seen o ≡ some v
    → lookup_reply o buf max_value_len ≡ (pos (length v), overwrite (v ++ 0 ∷ []) buf)
lookup_reply-seen none buf v e = ground arith
lookup_reply-seen (some w) buf v e = ground arith

lookup_reply-unseen :
    (o : Option (List ℕ)) (buf : List ℕ)
    → seen o ≡ none
    → (n : ℕ) × (lookup_reply o buf max_value_len ≡ (negsuc n, buf))
lookup_reply-unseen none buf e = (1, refl)
lookup_reply-unseen (some w) buf e = (27, ground arith)

module _ ⦃hashing : Hashing⦄ where
  -- A handler answers as promised: code 0, the promised message, and a valid table that holds the
  -- promised contents.
  pub record Meets (others : ℕ) (r : ℤ × KvMessage × Kernel) (s : KvMessage × Contents)
      : Type 0 where
    pub code : r.0 ≡ pos 0
    pub message : r.1 ≡ s.0
    pub chains : List Chain
    pub valid : IsValid others r.2 chains
    pub reads : (q : ℕ) → contents r.2 q ≡ s.1 q

  module _ {others : ℕ} {k : Kernel} {bs : List Chain} (valid : IsValid others k bs) (env : Env)
      (msg : KvMessage) where
    pub lookup_seen :
        (v : List ℕ)
        → seen (contents k msg.key) ≡ some v
        → kv_hash_lookup kv_store msg.key (some zero_value) max_value_len k
          ≡ (pos (length v), some (overwrite (v ++ 0 ∷ []) zero_value), k)
    lookup_seen v e =
        kv_hash_lookup_lem valid msg.key zero_value 64 (omega arith)
        ∙ ap (λ (r : ℤ × List ℕ). (r.0, some r.1, k))
            (lookup_reply-seen (contents k msg.key) zero_value v e)

    pub lookup_unseen :
        seen (contents k msg.key) ≡ none
        → (n : ℕ) × (kv_hash_lookup kv_store msg.key (some zero_value) max_value_len k
            ≡ (negsuc n, some zero_value, k))
    lookup_unseen e =
        let (n, reply) = lookup_reply-unseen (contents k msg.key) zero_value e in
        (
          n,
          kv_hash_lookup_lem valid msg.key zero_value 64 (omega arith)
              ∙ ap (λ (r : ℤ × List ℕ). (r.0, some r.1, k)) reply,
        )

    -- Nothing was written.
    pub unchanged : (m : KvMessage) → Meets others (pos 0, m, k) (m, contents k)
    unchanged m = record {
      code = refl;
      message = refl;
      chains = bs;
      valid = valid;
      reads = λ q. refl;
    }

    -- The end of `_handle_insert` and of `_handle_update`: the write, and what its code means.
    unfoldable pub write_end : List ℕ → ℤ × Kernel → ℤ × KvMessage × Kernel
    write_end failure (ret, k₂) =
        if is_neg ret
        then (pos 0, put_value (record msg { status = ret }) failure, k₂)
        else (pos 0, record msg { status = pos 0 }, k₂)

    pub write_end-Meets :
        (failure : List ℕ) (ok : Bool) (r : ℤ × Kernel) (s : List ℕ)
        → r.0 ≡ (if ok then pos 0 else neg enomem)
        → Puts others k msg.key (if ok then some s else contents k msg.key) r.1
        → Meets others (write_end failure r) (
            if ok
            then (record msg { status = pos 0 }, update (contents k) msg.key (some s))
            else (put_value (record msg { status = neg enomem }) failure, contents k))
    unfolding write_end
    write_end-Meets failure true (ret, k₂) s code puts = rw code (record {
      code = refl;
      message = refl;
      chains = puts.chains;
      valid = puts.valid;
      reads = puts.reads;
    })
    write_end-Meets failure false (ret, k₂) s code puts = rw code (record {
      code = refl;
      message = refl;
      chains = puts.chains;
      valid = puts.valid;
      reads = λ q. puts.reads q ∙ update_self (contents k) msg.key q;
    })

    pub added-Meets :
        (failure : List ℕ)
        → Meets others
            (write_end failure (
              kv_hash_add kv_store msg.key
                (some (msg.value ++ env.beyond))
                env.dup_ok
                env.node_ok
                k))
            (spec_write env msg failure (contents k))
    added-Meets failure =
        let (code, puts) =
          kv_hash_add_lem valid msg.key (msg.value ++ env.beyond) env.dup_ok env.node_ok in
        write_end-Meets failure (add_succeeds env.dup_ok env.node_ok (contents k msg.key)) _ _ code
          puts

    abbrev pub looked : ℤ × Option (List ℕ) × Kernel
    looked = kv_hash_lookup kv_store msg.key (some zero_value) max_value_len k
