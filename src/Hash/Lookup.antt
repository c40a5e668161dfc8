-- ===== src/Hash/Lookup.antt =====
-- `kv_hash_lookup` of kernel/kv_hash.c.
use kvstore_lkm.Prelude.{
  ℕ, ◌+◌, ◌<◌, ◌≡◌, refl, Option, none, some, List, [], ◌∷◌, ◌++◌, arith, ltb, if◌then◌else◌, ℤ,
  pos, neg, length,
}
use kvstore_lkm.Text.{NoNul, overwrite}
use kvstore_lkm.Hash.Chain.{Chain, find, NoNul-find}
use kvstore_lkm.Hash.Table.{Hashing, kv_store, Kernel, enoent, enospc, IsValid}
use kvstore_lkm.Hash.Ops.{kv_hash_lookup}
use kvstore_lkm.Hash.View.{contents, contents-IsValid, home_chain}

-- What a lookup answers, from the contents alone: a code, and what the buffer holds then.
abbrev pub lookup_reply : Option (List ℕ) → List ℕ → ℕ → ℤ × List ℕ
lookup_reply none out_buf out_buflen = (neg enoent, out_buf)
lookup_reply (some v) out_buf out_buflen =
    if ltb out_buflen (length v + 1)
    then (neg enospc, out_buf)
    else (pos (length v), overwrite (v ++ 0 ∷ []) out_buf)

module _ ⦃hashing : Hashing⦄ {others : ℕ} {k : Kernel} {bs : List Chain}
    (valid : IsValid others k bs) (key : ℕ) (out_buf : List ℕ) (out_buflen : ℕ) where
  lookup_run :
      0 < out_buflen
      → (reply : ℤ × List ℕ)
      → lookup_reply (find key (home_chain valid key)) out_buf out_buflen ≡ reply
      → kv_hash_lookup kv_store key (some out_buf) out_buflen k ≡ (reply.0, some reply.1, k)
  unfolding kv_hash_lookup
  lookup_run h reply e = ground (arith, valid.ready, valid.unlocked)

  -- On a valid table, a lookup with a buffer length above 0 answers by the contents alone: -ENOENT
  -- for a key that is not there, -ENOSPC for a string that does not fit with its NUL, and else the
  -- length of the string, with the string and its NUL over the front of the buffer. It changes
  -- nothing in the kernel.
  pub kv_hash_lookup_lem :
      0 < out_buflen
      → kv_hash_lookup kv_store key (some out_buf) out_buflen k ≡ (
        (lookup_reply (contents k key) out_buf out_buflen).0,
        some (lookup_reply (contents k key) out_buf out_buflen).1,
        k,
      )
  kv_hash_lookup_lem h = rw (contents-IsValid valid key) (lookup_run h _ refl)

  pub NoNul-contents : (v : List ℕ) → contents k key ≡ some v → NoNul v
  NoNul-contents v e =
      NoNul-find key (home_chain valid key) v (valid.strings _)
        (rw (contents-IsValid valid key) at e)
