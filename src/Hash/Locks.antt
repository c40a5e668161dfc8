-- ===== src/Hash/Locks.antt =====
-- The operations of kernel/kv_hash.c on several threads, with their spin locks: taking the lock of
-- the bucket, the walk over its chain, the write and the release are steps of their own, and other
-- threads may come in between any two of them.
pub mod Safe
pub mod Invariant
pub mod Serial
pub mod Progress
pub mod Rounds
pub mod Sections
pub mod Calls
pub mod Operations
use kvstore_lkm.Prelude.{
  ℕ, zero, suc, Bool, not, Option, none, some, List, [], ◌∷◌, if◌then◌else◌, ℤ, pos, neg, get_or,
  set,
}
use kvstore_lkm.Hash.Chain.{Chain, find, assign, unlink}
use kvstore_lkm.Hash.Table.{enomem, enoent}
use kvstore_lkm.Hash.Ops.{lookup_locked}

-- A call, with the copy of its string made: what is left to do under the lock.
pub data TableRequest : Type 0 where
  adding : ℕ → List ℕ → Bool → TableRequest
  removing : ℕ → TableRequest
  looking : ℕ → List ℕ → ℕ → TableRequest

-- The code, and what `out_buf` holds.
abbrev pub Answer : Type 0
Answer = ℤ × List ℕ

-- What a call does to the chain that it has walked.
unfoldable pub section_of : TableRequest → Chain → Answer × Chain
unfolding find assign unlink lookup_locked
section_of (adding key newstr node_ok) c = elim (find key c) [
  | some old ↦ ((pos 0, []), assign key newstr c)
  | none ↦
      if not node_ok
      then ((neg enomem, []), c)
      else ((pos 0, []), record { key = key; value = newstr } ∷ c)
]
section_of (removing key) c = elim (find key c) [
  | some old ↦ ((pos 0, []), unlink key c)
  | none ↦ ((neg enoent, []), c)
]
section_of (looking key out_buf out_buflen) c = (lookup_locked c key out_buf out_buflen, c)

-- Where a thread is: in front of the lock, in it, at the end of its walk over a chain, after its
-- write, and after the release.
pub data Stage : Type 0 where
  waiting locked : Stage
  walked : Chain → Stage
  written left : Answer → Stage

pub record Caller : Type 0 where
  pub request : TableRequest
  pub bucket : ℕ
  pub stage : Stage

-- The buckets, and for each the thread that holds its lock.
pub record Machine : Type 0 where
  pub chains : List Chain
  pub locks : List (Option ℕ)

abbrev pub holder : Machine → ℕ → Option ℕ
holder m bucket = get_or m.locks bucket none

abbrev pub chain_in : Machine → ℕ → Chain
chain_in m bucket = get_or m.chains bucket []

-- `spin_lock_irqsave`: while another thread holds the lock, the thread stays where it is.
abbrev pub taken : ℕ → Caller → Machine → Option ℕ → Caller × Machine
taken i w m (some j) = (w, m)
taken i w m none = (record w { stage = locked }, record m { locks = set m.locks w.bucket (some i) })

unfoldable pub step_at : Stage → ℕ → Caller → Machine → Caller × Machine
unfolding section_of get_or set
step_at waiting i w m = taken i w m (holder m w.bucket)
step_at locked i w m = (record w { stage = walked (chain_in m w.bucket) }, m)
step_at (walked c) i w m =
    let (answer, c') = section_of w.request c in
    (record w { stage = written answer }, record m { chains = set m.chains w.bucket c' })
step_at (written answer) i w m =
    (record w { stage = left answer }, record m { locks = set m.locks w.bucket none })
step_at (left answer) i w m = (w, m)

unfoldable pub caller_at : ℕ → List Caller → Option Caller
caller_at i [] = none
caller_at zero (w ∷ ws) = some w
caller_at (suc i) (w ∷ ws) = caller_at i ws

abbrev moved : ℕ → List Caller → Machine → Option Caller → List Caller × Machine
moved i ws m none = (ws, m)
moved i ws m (some w) = let (w', m') = step_at w.stage i w m in (set ws i w', m')

-- The thread with this number takes its next step; a number without a thread does nothing.
unfoldable pub one_move : ℕ → List Caller → Machine → List Caller × Machine
unfolding step_at caller_at
one_move i ws m = moved i ws m (caller_at i ws)

unfoldable pub moves : List ℕ → List Caller → Machine → List Caller × Machine
moves [] ws m = (ws, m)
moves (i ∷ is) ws m = let (ws', m') = one_move i ws m in moves is ws' m'
