-- ===== src/Hash/Add.antt =====
-- `kv_hash_add` of kernel/kv_hash.c.
use kvstore_lkm.Prelude.{
  ℕ, ◌+◌, ◌-◌, ◌≡◌, refl, ◌∙◌, Bool, true, false, ◌&&◌, ◌||◌, Option, none, some, List, [], ◌∷◌,
  inl, inr, arith, if◌then◌else◌, Option-cases, pos, neg,
}
use kvstore_lkm.Text.{c_string, c_string-NoNul}
use kvstore_lkm.Hash.Chain.{
  Chain, find, assign, occurs, find-assign, occurs-assign, length-assign, occurs_absent,
  AllStrings-assign,
}
use kvstore_lkm.Hash.Table.{Hashing, kv_store, Kernel, enomem, IsValid}
use kvstore_lkm.Hash.Ops.{kv_hash_add}
use kvstore_lkm.Hash.View.{
  contents, contents-IsValid, is_found, home, home_chain, with_chain, Puts, with_chain-Puts,
  same-Puts,
}

-- Both copies succeed: that of the string, and the node unless an entry is there to be updated.
abbrev pub add_succeeds : Bool → Bool → Option (List ℕ) → Bool
add_succeeds dup_ok node_ok old = dup_ok && (is_found old || node_ok)

module _ ⦃hashing : Hashing⦄ {others : ℕ} {k : Kernel} {bs : List Chain}
    (valid : IsValid others k bs) (key : ℕ) (value : List ℕ) where
  add_new-Puts :
      find key (home_chain valid key) ≡ none
      → (slept : Bool)
      → Puts others k key (some (c_string value)) (
          with_chain valid key
            (record { key = key; value = c_string value } ∷ home_chain valid key)
            (k.live + 1 + 1)
            slept)
  unfolding occurs find
  add_new-Puts e slept =
      with_chain-Puts valid key (some (c_string value)) _ _ slept
        (λ q. ground (arith, occurs_absent key (home_chain valid key))) (λ q. ground arith)
        (c_string-NoNul value, valid.strings _) (rw e (omega arith)) (omega arith)

  add_old-Puts :
      (old : List ℕ)
      → find key (home_chain valid key) ≡ some old
      → (slept : Bool)
      → Puts others k key (some (c_string value)) (
          with_chain valid key
            (assign key (c_string value) (home_chain valid key))
            (k.live + 1 - 1)
            slept)
  add_old-Puts old e slept =
      let c = home_chain valid key in
      with_chain-Puts valid key (some (c_string value)) _ _ slept
        (λ q. rw occurs-assign (ground (arith, valid.placed q (home valid key))))
        (λ q. find-assign key q (c_string value) c old e)
        (AllStrings-assign key (c_string value) c (c_string-NoNul value) (valid.strings _))
        (rw (e, length-assign) refl) (rw length-assign (omega arith))

  -- The runs of `kv_hash_add`, one for each way through it.
  add_run_dup_fails :
      (node_ok : Bool)
      → kv_hash_add kv_store key (some value) false node_ok k
        ≡ (neg enomem, record k { live = k.live; held = []; slept = k.slept })
  unfolding kv_hash_add
  add_run_dup_fails node_ok = ground (arith, valid.ready, valid.unlocked)

  add_run_new :
      find key (home_chain valid key) ≡ none
      → kv_hash_add kv_store key (some value) true true k ≡ (
        pos 0,
        with_chain valid key
            (record { key = key; value = c_string value } ∷ home_chain valid key)
            (k.live + 1 + 1)
            true,
      )
  unfolding kv_hash_add
  add_run_new e = ground (arith, valid.ready, valid.unlocked)

  add_run_node_fails :
      find key (home_chain valid key) ≡ none
      → kv_hash_add kv_store key (some value) true false k
        ≡ (neg enomem, record k { live = k.live; held = []; slept = true })
  unfolding kv_hash_add
  add_run_node_fails e = ground (arith, valid.ready, valid.unlocked)

  add_run_old :
      (node_ok : Bool) (old : List ℕ)
      → find key (home_chain valid key) ≡ some old
      → kv_hash_add kv_store key (some value) true node_ok k ≡ (
        pos 0,
        with_chain valid key
            (assign key (c_string value) (home_chain valid key))
            (k.live + 1 - 1)
            k.slept,
      )
  unfolding kv_hash_add
  add_run_old node_ok old e = ground (arith, valid.ready, valid.unlocked)

  add_absent :
      (node_ok : Bool)
      → find key (home_chain valid key) ≡ none
      → ((kv_hash_add kv_store key (some value) true node_ok k).0
          ≡ (if add_succeeds true node_ok (contents k key) then pos 0 else neg enomem))
        × Puts others k key
            (if add_succeeds true node_ok (contents k key)
              then some (c_string value)
              else contents k key)
            (kv_hash_add kv_store key (some value) true node_ok k).1
  add_absent true e =
      let reads = contents-IsValid valid key ∙ e in
      rw (add_run_new e, reads) (refl, add_new-Puts e true)
  add_absent false e =
      let reads = contents-IsValid valid key ∙ e in
      let same = same-Puts {others = others} {k = k} {bs = bs} valid key k.live true refl in
      rw (add_run_node_fails e, reads) (refl, rw reads at same)

  -- On a valid table, `kv_hash_add` of a value that is not NULL sets the key to its string and
  -- answers 0, exactly if the copy of the string succeeds and, for a new key, the allocation of the
  -- node. If not, it answers -ENOMEM and leaves the contents alone. On every path no other key
  -- changes, the table stays valid, no block leaks, and no lock stays held.
  pub kv_hash_add_lem :
      (dup_ok node_ok : Bool)
      → ((kv_hash_add kv_store key (some value) dup_ok node_ok k).0
          ≡ (if add_succeeds dup_ok node_ok (contents k key) then pos 0 else neg enomem))
        × Puts others k key
            (if add_succeeds dup_ok node_ok (contents k key)
              then some (c_string value)
              else contents k key)
            (kv_hash_add kv_store key (some value) dup_ok node_ok k).1
  kv_hash_add_lem false node_ok =
      rw (add_run_dup_fails node_ok) (refl, same-Puts valid key k.live k.slept refl)
  kv_hash_add_lem true node_ok = elim (Option-cases (find key (home_chain valid key))) [
    | inr (old, e) ↦
        let reads = contents-IsValid valid key ∙ e in
        rw (add_run_old node_ok old e, reads) (refl, add_old-Puts old e k.slept)
    | inl e ↦ add_absent node_ok e
  ]

  -- On a valid table, with a value that is not NULL and its copy made, `kv_hash_add` asks for
  -- memory that it may have to sleep for while it holds the spin lock of the bucket, exactly if the
  -- key is new.
  pub add_sleeps :
      (node_ok : Bool)
      → (kv_hash_add kv_store key (some value) true node_ok k).1.slept
        ≡ (if is_found (contents k key) then k.slept else true)
  add_sleeps node_ok = elim (Option-cases (find key (home_chain valid key))) [
    | inr (old, e) ↦ rw (add_run_old node_ok old e, contents-IsValid valid key ∙ e) refl
    | inl e ↦ add_absent_sleeps node_ok e
  ]
    where
      add_absent_sleeps :
          (ok : Bool)
          → find key (home_chain valid key) ≡ none
          → (kv_hash_add kv_store key (some value) true ok k).1.slept
            ≡ (if is_found (contents k key) then k.slept else true)
      add_absent_sleeps true e = rw (add_run_new e, contents-IsValid valid key ∙ e) refl
      add_absent_sleeps false e = rw (add_run_node_fails e, contents-IsValid valid key ∙ e) refl
