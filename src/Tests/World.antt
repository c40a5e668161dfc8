-- ===== src/Tests/World.antt =====
-- A small machine for the tests: a hash, an empty table of two buckets, and one with one entry.
use kvstore_lkm.Prelude.{
  ℕ, Bool, ◌%◌, ◌^◌, ◌≡◌, ◌<◌, refl, sym, ap, true, false, Option, none, some, List, [], ◌∷◌, arith,
  pos, replicate, codes, get_or, set, flatten,
}
use mathlib.Core.Path.{subst}
use kvstore_lkm.Text.{c_string}
use kvstore_lkm.Message.{KvMessage, zero_value}
use kvstore_lkm.Hash.Chain.{Chain, find, assign, unlink}
use kvstore_lkm.Hash.Table.{
  Hashing, Kernel, kv_store, IsValid, kmalloc, kfree, spin_lock, spin_unlock, put_buckets,
  kv_bucket,
}
use kvstore_lkm.Hash.Ops.{kv_hash_init, kv_hash_add, add_locked}
use kvstore_lkm.Hash.View.{contents, entry_total, Puts}
use kvstore_lkm.Hash.Add.{kv_hash_add_lem}
use kvstore_lkm.Hash.Lifecycle.{init_succeeds}
use kvstore_lkm.Device.Handlers.{Env}
use kvstore_lkm.Device.RoundTrip.{IsLucky}
use kvstore_lkm.Device.Values.{IsShort}
use kvstore_lkm.Daemon.Auth.{Pam, authenticate}
use kvstore_lkm.Daemon.Files.{Saving}
use kvstore_lkm.Daemon.Command.{Server, Setting}
use native.Mathlib.Nat.{mod-lt, pow-le-pow_right}

pub remainder-lt : (key bits : ℕ) → 0 < bits → bits < 32 → key % 2 ^ bits < 2 ^ bits
remainder-lt key bits p q =
    let bound = pow-le-pow_right {n = 2} (omega arith) {i = 0} {j = bits} (omega arith) in
    mod-lt key (omega (arith, bound))

-- What a run of the table unfolds.
unfoldable pub program : Unit {0}
unfolding c_string find assign unlink kmalloc kfree spin_lock spin_unlock put_buckets get_or set
    replicate flatten kv_bucket kv_hash_init add_locked kv_hash_add
program = tt

-- The low bits of the key.
instance abbrev pub low_bits : Hashing
low_bits = record { hash_min = λ key bits. key % 2 ^ bits; hash_min-lt = remainder-lt }

abbrev pub off : Kernel
off = record {
  table = record { buckets = none; bucket_locks = none; bits = 0 };
  live = 5;
  held = [];
  slept = false;
}

abbrev pub empty : Kernel
empty = (kv_hash_init kv_store 1 true true off).1

pub empty-IsValid : IsValid 5 empty (replicate 2 [])
empty-IsValid = (init_succeeds 1 (omega arith) (omega arith) off refl).1

-- "hi" in a message's array.
abbrev pub hi : List ℕ
hi = 104 ∷ 105 ∷ replicate 62 0

abbrev pub one : Kernel
one = (kv_hash_add kv_store 3 (some hi) true true empty).1

pub one_puts : Puts 5 empty 3 (some (104 ∷ 105 ∷ [])) one
unfolding program
one_puts = (kv_hash_add_lem empty-IsValid 3 hi true true).1

pub one_holds : contents one 3 ≡ some (104 ∷ 105 ∷ [])
one_holds = one_puts.reads 3

pub one_lacks : contents one 4 ≡ none
unfolding program
one_lacks = one_puts.reads 4

pub one_total : entry_total one ≡ 1
unfolding program
one_total = refl

pub none_total : entry_total empty ≡ 0
unfolding program
none_total = refl

abbrev pub one_chains : List Chain
one_chains = [] ∷ (record { key = 3; value = 104 ∷ 105 ∷ [] } ∷ []) ∷ []

abbrev chains_of : Option (List Chain) → List Chain
chains_of none = []
chains_of (some bs) = bs

same_chains : one_puts.chains ≡ one_chains
unfolding program
same_chains = sym (ap chains_of one_puts.valid.ready)

pub one-IsValid : IsValid 5 one one_chains
one-IsValid = subst (λ bs. IsValid 5 one bs) same_chains one_puts.valid

pub empty_lacks : (q : ℕ) → contents empty q ≡ none
empty_lacks = (init_succeeds 1 (omega arith) (omega arith) off refl).2

abbrev pub blank : KvMessage
blank = record { status = pos 0; key = 0; value = zero_value }

-- Everything that a call asks for succeeds, and a NUL follows the message on the stack.
abbrev pub calm : Env
calm = record {
  copy_in = true;
  copy_out = true;
  dup_ok = true;
  node_ok = true;
  snapshot_ok = true;
  beyond = 7 ∷ 0 ∷ [];
  garbage = blank;
}

pub calm-IsLucky : IsLucky calm
calm-IsLucky = record { copied_in = refl; copied_out = refl; string_made = refl; node_made = refl }

pub one_few : entry_total one < 2 ^ 31
one_few = omega (arith, one_total)

pub one_there : 0 < entry_total one
one_there = omega (arith, one_total)

-- Everybody is known, and nobody's password is accepted.
abbrev pub closed_pam : Pam
closed_pam = record {
  pam_start = λ user. 0;
  pam_authenticate = λ user conv. 7;
  pam_acct_mgmt = λ user. 0;
  calloc_ok = true;
  strdup_ok = λ i. true;
}

abbrev pub alone : Saving
alone = record {
  count_env = calm;
  between = λ k. k;
  snapshot_env = calm;
  calloc_ok = true;
  open_ok = true;
}

abbrev pub setting : Setting
setting = record { env = calm; number = λ cmd. 0; pam = closed_pam; saving = alone }

abbrev pub server : Bool → Server
server b = record { kernel = one; file = none; authenticated = b }

-- Everybody is known, and every password is accepted.
abbrev pub open_pam : Pam
open_pam = record closed_pam { pam_authenticate = λ user conv. 0 }

abbrev pub open_setting : Setting
open_setting = record setting { pam = open_pam }

pub empty-IsShort : IsShort (contents empty)
empty-IsShort q v e = ground (arith, empty_lacks q, e)

pub one-IsShort : IsShort (contents one)
one-IsShort q v e = ground (arith, one_puts.reads q, empty_lacks q, e)

pub open_accepts : authenticate open_setting.pam (codes "ann") (codes "pw") ≡ true
unfolding authenticate
open_accepts = refl
