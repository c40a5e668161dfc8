-- ===== src/Hash/Export.antt =====
-- The entries of kernel/kv_hash.c's table in table order, as `kv_hash_snapshot` exports them: each
-- key once, with the value that a lookup finds.
use kvstore_lkm.Prelude.{
  ℕ, zero, suc, ◌+◌, ◌≤◌, ◌≡◌, ◌≢◌, refl, sym, ◌∙◌, ap, Option, none, some, List, [], ◌∷◌, ◌++◌,
  arith, ◌==◌, if◌then◌else◌, get_or, take, flatten, length-replicate,
}
use kvstore_lkm.Text.{c_string, NoNul, c_string-put_text}
use kvstore_lkm.Message.{KvMessage, zero_value}
use kvstore_lkm.Hash.Chain.{Entry, Chain, find, occurs, find_absent, AllStrings}
use kvstore_lkm.Hash.Table.{Hashing, Kernel, IsValid}
use kvstore_lkm.Hash.Ops.{message_of}
use kvstore_lkm.Hash.View.{contents, contents-IsValid}
use kvstore_lkm.Hash.Snapshot.{messages, flatten-cons}

-- The string of the first message with the key.
unfoldable pub find_message : ℕ → List KvMessage → Option (List ℕ)
find_message q [] = none
find_message q (m ∷ ms) = if m.key == q then some (c_string m.value) else find_message q ms

-- How many messages have the key.
unfoldable pub key_count : ℕ → List KvMessage → ℕ
key_count q [] = 0
key_count q (m ∷ ms) = (if m.key == q then 1 else 0) + key_count q ms

-- What a message of 64 bytes keeps of a value.
abbrev pub cut : Option (List ℕ) → Option (List ℕ)
cut none = none
cut (some v) = some (take 63 v)

-- The first of two answers.
unfoldable pub first : Option (List ℕ) → Option (List ℕ) → Option (List ℕ)
first none p = p
first (some v) p = some v

first-none : (o : Option (List ℕ)) → first o none ≡ o
unfolding first
first-none none = refl
first-none (some v) = refl

pub none-first : (o : Option (List ℕ)) → first none o ≡ o
unfolding first
none-first o = refl

pub find-append : (q : ℕ) (a b : Chain) → find q (a ++ b) ≡ first (find q a) (find q b)
unfolding find first
find-append q [] b = refl
find-append q (e ∷ a) b = ground (arith, find-append q a b)

pub occurs-append : (q : ℕ) (a b : Chain) → occurs q (a ++ b) ≡ occurs q a + occurs q b
unfolding occurs
occurs-append q [] b = omega arith
occurs-append q (e ∷ a) b = omega (arith, occurs-append q a b)

AllStrings-append : (a b : Chain) → AllStrings a → AllStrings b → AllStrings (a ++ b)
AllStrings-append [] b h g = g
AllStrings-append (e ∷ a) b h g = (h.0, AllStrings-append a b h.1 g)

pub AllStrings-flatten :
    (bs : List Chain) → ((i : ℕ) → AllStrings (get_or bs i [])) → AllStrings (flatten bs)
unfolding flatten get_or
AllStrings-flatten [] h = tt
AllStrings-flatten (c ∷ bs) h =
    AllStrings-append c (flatten bs) (h 0) (AllStrings-flatten bs (λ i. h (suc i)))

nowhere :
    (q : ℕ) (bs : List Chain)
    → ((i : ℕ) → occurs q (get_or bs i []) ≡ 0)
    → occurs q (flatten bs) ≡ 0
unfolding flatten get_or occurs
nowhere q [] h = refl
nowhere q (c ∷ bs) h = rw occurs-append (omega (arith, h 0, nowhere q bs (λ i. h (suc i))))

-- A key that stands in chain `j` only is looked up there.
pub only_at :
    (q : ℕ) (bs : List Chain) (j : ℕ)
    → ((i : ℕ) → i ≢ j → occurs q (get_or bs i []) ≡ 0)
    → (find q (flatten bs) ≡ find q (get_or bs j []))
      × (occurs q (flatten bs) ≡ occurs q (get_or bs j []))
unfolding get_or
only_at q [] j h = unfold flatten in (refl, refl)
only_at q (c ∷ bs) zero h =
    let rest = nowhere q bs (λ i. h (suc i) (omega arith)) in
    let gone = find_absent q (flatten bs) rest in
    rw (flatten-cons c bs, find-append, gone, occurs-append, rest)
      (first-none (find q c), omega arith)
only_at q (c ∷ bs) (suc j) h =
    let here = h 0 (omega arith) in
    let (there, counted) = only_at q bs j (λ i n. h (suc i) (omega arith)) in
    rw (flatten-cons c bs, find-append, find_absent q c here, none-first, occurs-append, here)
      (there, omega arith)

pub message_of-value : (e : Entry) → NoNul e.value → c_string (message_of e).value ≡ take 63 e.value
message_of-value e h =
    let room = length-replicate {A = ℕ} 64 0 in
    unfold message_of in
    c_string-put_text zero_value 64 e.value h (omega arith) (omega (arith, room))

message_of-key : (e : Entry) → (message_of e).key ≡ e.key
unfolding message_of
message_of-key e = refl

pub find_message-messages :
    (q : ℕ) (c : Chain) → AllStrings c → find_message q (messages c) ≡ cut (find q c)
unfolding find_message find
find_message-messages q [] h = refl
find_message-messages q (e ∷ c) h =
    rw (message_of-key, message_of-value e h.0) (ground (arith, find_message-messages q c h.1))

pub key_count-messages : (q : ℕ) (c : Chain) → key_count q (messages c) ≡ occurs q c
unfolding key_count occurs
key_count-messages q [] = refl
key_count-messages q (e ∷ c) = rw message_of-key (omega (arith, key_count-messages q c))

module _ ⦃hashing : Hashing⦄ {others : ℕ} {k : Kernel} {bs : List Chain}
    (valid : IsValid others k bs) where
  -- The map of the table, and how often a key occurs, over all the entries.
  pub contents-flatten :
      (q : ℕ) → (contents k q ≡ find q (flatten bs)) × (occurs q (flatten bs) ≤ 1)
  contents-flatten q =
      let home = hashing.hash_min q k.table.bits in
      let (there, counted) = only_at q bs home (λ i n. (valid.placed q i).1 (λ e. n (sym e))) in
      (contents-IsValid valid q ∙ sym there, omega (arith, counted, (valid.placed q home).0))

  -- The messages that a valid table exports, all its entries in table order, are its contents: each
  -- key has at most one message, the string of that message is the stored value cut to 63 bytes,
  -- and a key that is not stored has none.
  pub snapshot_contents :
      (q : ℕ)
      → (find_message q (messages (flatten bs)) ≡ cut (contents k q))
        × (key_count q (messages (flatten bs)) ≤ 1)
  snapshot_contents q =
      let (same, once) = contents-flatten q in
      (
        find_message-messages q (flatten bs) (AllStrings-flatten bs valid.strings)
            ∙ ap cut (sym same),
        rw key_count-messages once,
      )
