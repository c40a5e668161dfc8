-- ===== src/Hash/Chain.antt =====
-- kernel/kv_hash.h: one chain, an hlist of entries. A walk of `hlist_for_each_entry` that stops at
-- the first entry with the key is a recursion on the chain.
use kvstore_lkm.Prelude.{
  ℕ, suc, ◌+◌, ◌≤◌, ◌≡◌, refl, Option, none, some, List, [], ◌∷◌, arith, ◌==◌, if◌then◌else◌,
  length,
}
use kvstore_lkm.Text.{NoNul}

-- `value` is the string that the pointer leads to, without its NUL.
pub record Entry : Type 0 where
  pub key : ℕ
  pub value : List ℕ

abbrev pub Chain : Type 0
Chain = List Entry

-- The value of the first entry with the key.
unfoldable pub find : ℕ → Chain → Option (List ℕ)
find key [] = none
find key (e ∷ c) = if e.key == key then some e.value else find key c

-- `e->value = newstr` at the first entry with the key.
unfoldable pub assign : ℕ → List ℕ → Chain → Chain
assign key newstr [] = []
assign key newstr (e ∷ c) =
    if e.key == key then record e { value = newstr } ∷ c else e ∷ assign key newstr c

-- `hlist_del` of the first entry with the key.
unfoldable pub unlink : ℕ → Chain → Chain
unlink key [] = []
unlink key (e ∷ c) = if e.key == key then c else e ∷ unlink key c

-- How many entries have the key.
unfoldable pub occurs : ℕ → Chain → ℕ
occurs key [] = 0
occurs key (e ∷ c) = (if e.key == key then 1 else 0) + occurs key c

-- Every stored string ends at its NUL.
abbrev pub AllStrings : Chain → Type 0
AllStrings [] = Unit
AllStrings (e ∷ c) = NoNul e.value × AllStrings c

pub find_absent : (q : ℕ) (c : Chain) → occurs q c ≡ 0 → find q c ≡ none
unfolding find occurs
find_absent q [] h = refl
find_absent q (e ∷ c) h = ground (arith, find_absent q c)

pub occurs_absent : (q : ℕ) (c : Chain) → find q c ≡ none → occurs q c ≡ 0
unfolding find occurs
occurs_absent q [] h = refl
occurs_absent q (e ∷ c) h = ground (arith, occurs_absent q c)

pub find-assign :
    (k q : ℕ) (v : List ℕ) (c : Chain) (old : List ℕ)
    → find k c ≡ some old
    → find q (assign k v c) ≡ (if k == q then some v else find q c)
unfolding find assign
find-assign k q v [] old h = ground arith
find-assign k q v (e ∷ c) old h = ground (arith, find-assign k q v c old)

pub occurs-assign : (k q : ℕ) (v : List ℕ) (c : Chain) → occurs q (assign k v c) ≡ occurs q c
unfolding occurs assign
occurs-assign k q v [] = refl
occurs-assign k q v (e ∷ c) = ground (arith, occurs-assign k q v c)

pub length-assign : (k : ℕ) (v : List ℕ) (c : Chain) → length (assign k v c) ≡ length c
unfolding assign
length-assign k v [] = refl
length-assign k v (e ∷ c) = ground (arith, length-assign k v c)

pub find-unlink :
    (k q : ℕ) (c : Chain)
    → occurs k c ≤ 1
    → find q (unlink k c) ≡ (if k == q then none else find q c)
unfolding find unlink occurs
find-unlink k q [] h = ground arith
find-unlink k q (e ∷ c) h = ground (arith, find-unlink k q c, find_absent q c, find_absent k c)

pub occurs-unlink : (k q : ℕ) (c : Chain) → occurs q (unlink k c) ≤ occurs q c
unfolding occurs unlink
occurs-unlink k q [] = omega arith
occurs-unlink k q (e ∷ c) = ground (arith, occurs-unlink k q c)

pub length-unlink :
    (k : ℕ) (c : Chain) (old : List ℕ) → find k c ≡ some old → suc (length (unlink k c)) ≡ length c
unfolding unlink find
length-unlink k [] old h = ground arith
length-unlink k (e ∷ c) old h = ground (arith, length-unlink k c old)

pub AllStrings-assign :
    (k : ℕ) (v : List ℕ) (c : Chain) → NoNul v → AllStrings c → AllStrings (assign k v c)
unfolding assign
AllStrings-assign k v [] h a = tt
AllStrings-assign k v (e ∷ c) h a = ground (arith, AllStrings-assign k v c)

pub AllStrings-unlink : (k : ℕ) (c : Chain) → AllStrings c → AllStrings (unlink k c)
unfolding unlink
AllStrings-unlink k [] a = tt
AllStrings-unlink k (e ∷ c) a = ground (arith, AllStrings-unlink k c)

pub NoNul-find : (k : ℕ) (c : Chain) (v : List ℕ) → AllStrings c → find k c ≡ some v → NoNul v
unfolding find
NoNul-find k [] v a h = ground arith
NoNul-find k (e ∷ c) v a h = ground (arith, NoNul-find k c v)
