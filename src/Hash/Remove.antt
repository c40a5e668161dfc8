-- ===== src/Hash/Remove.antt =====
-- `kv_hash_remove` of kernel/kv_hash.c.
use kvstore_lkm.Prelude.{
  ℕ, ◌-◌, ◌≡◌, refl, ◌∙◌, none, some, List, [], inl, inr, arith, if◌then◌else◌, Option-cases, pos,
  neg,
}
use kvstore_lkm.Hash.Chain.{
  Chain, find, unlink, find-unlink, occurs-unlink, length-unlink, AllStrings-unlink,
}
use kvstore_lkm.Hash.Table.{Hashing, kv_store, Kernel, enoent, IsValid}
use kvstore_lkm.Hash.Ops.{kv_hash_remove}
use kvstore_lkm.Hash.View.{
  contents, contents-IsValid, is_found, home, home_chain, with_chain, Puts, with_chain-Puts,
  same-Puts,
}

module _ ⦃hashing : Hashing⦄ {others : ℕ} {k : Kernel} {bs : List Chain}
    (valid : IsValid others k bs) (key : ℕ) where
  remove_run_absent :
      find key (home_chain valid key) ≡ none
      → kv_hash_remove kv_store key k
        ≡ (neg enoent, record k { live = k.live; held = []; slept = k.slept })
  unfolding kv_hash_remove
  remove_run_absent e = ground (arith, valid.ready, valid.unlocked)

  remove_run_found :
      (old : List ℕ)
      → find key (home_chain valid key) ≡ some old
      → kv_hash_remove kv_store key k
        ≡ (pos 0, with_chain valid key (unlink key (home_chain valid key)) (k.live - 1 - 1) k.slept)
  unfolding kv_hash_remove
  remove_run_found old e = ground (arith, valid.ready, valid.unlocked)

  remove_found-Puts :
      (old : List ℕ)
      → find key (home_chain valid key) ≡ some old
      → Puts others k key none
          (with_chain valid key (unlink key (home_chain valid key)) (k.live - 1 - 1) k.slept)
  remove_found-Puts old e =
      let c = home_chain valid key in
      let shorter = length-unlink key c old e in
      with_chain-Puts valid key none _ _ k.slept
        (λ q. ground (arith, valid.placed q (home valid key), occurs-unlink key q c))
        (λ q. find-unlink key q c (valid.placed key (home valid key)).0)
        (AllStrings-unlink key c (valid.strings _)) (rw e (omega arith)) (omega arith)

  -- On a valid table, `kv_hash_remove` takes the key out and answers 0 if it was there, and answers
  -- -ENOENT if not. On both paths no other key changes, the table stays valid with its blocks
  -- accounted for, and no lock stays held.
  pub kv_hash_remove_lem :
      ((kv_hash_remove kv_store key k).0
        ≡ (if is_found (contents k key) then pos 0 else neg enoent))
      × Puts others k key none (kv_hash_remove kv_store key k).1
  kv_hash_remove_lem = elim (Option-cases (find key (home_chain valid key))) [
    | inr (old, e) ↦
        let reads = contents-IsValid valid key ∙ e in
        rw (remove_run_found old e, reads) (refl, remove_found-Puts old e)
    | inl e ↦
        let reads = contents-IsValid valid key ∙ e in
        let same = same-Puts {others = others} {k = k} {bs = bs} valid key k.live k.slept refl in
        rw (remove_run_absent e, reads) (refl, rw reads at same)
  ]
