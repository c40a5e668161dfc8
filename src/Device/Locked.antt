-- ===== src/Device/Locked.antt =====
-- Several threads in the handlers of kernel/kvlkm.c at once, down to the spin locks of
-- kernel/kv_hash.c: taking the lock of a bucket, the walk, the write, the release, and what the
-- handler does with the answer are steps of their own.
pub mod Sections
pub mod Steps
pub mod Turn
pub mod Advance
pub mod Serial
use kvstore_lkm.Prelude.{
  ℕ, zero, suc, not, Option, none, some, List, [], ◌∷◌, ◌++◌, if◌then◌else◌, pos, neg, is_neg,
  codes, set,
}
use kvstore_lkm.Text.{decimal, c_string}
use kvstore_lkm.Message.{max_value_len, zero_value}
use kvstore_lkm.Hash.Table.{Hashing, enomem}
use kvstore_lkm.Hash.Locks.{
  TableRequest, adding, removing, looking, Answer, Stage, waiting, locked, walked, written, left,
  Caller, Machine, step_at,
}
use kvstore_lkm.Device.Handlers.{put_value}
use kvstore_lkm.Device.Interleave.{
  Phase, start, checked, done, Handler, inserting, updating, getting, deleting, Thread, finished,
  failure_of,
}

-- The call of the table that a thread makes next, when it gets to its lock: none at the end, and
-- none where `kv_hash_add` cannot copy the string.
unfoldable pub request_at : Phase → Handler → Thread → Option TableRequest
unfolding c_string
request_at start inserting t = some (looking t.message.key zero_value max_value_len)
request_at start updating t = some (looking t.message.key zero_value max_value_len)
request_at start getting t = some (looking t.message.key zero_value max_value_len)
request_at start deleting t = some (removing t.message.key)
request_at checked handler t =
    if t.env.dup_ok
    then some (adding t.message.key (c_string (t.message.value ++ t.env.beyond)) t.env.node_ok)
    else none
request_at done handler t = none

abbrev pub request_of : Thread → Option TableRequest
request_of t = request_at t.phase t.handler t

-- What the thread does with the answer.
unfoldable pub resume_at : Phase → Handler → Thread → Answer → Thread
unfolding put_value decimal
resume_at start inserting t (ret, existing) =
    if not (is_neg ret)
    then finished t
        (put_value (record t.message { status = pos 1 }) (codes "Key exists. Use update.\n"))
    else record t { phase = checked }
resume_at start updating t (ret, tmp) =
    if is_neg ret
    then finished t (
        put_value (record t.message { status = pos 1 })
          (codes "Cannot update non-existent key: " ++ decimal t.message.key ++ codes "\n"))
    else record t { phase = checked }
resume_at start getting t (ret, out) =
    let msg = record t.message { status = pos 1; value = out } in
    if is_neg ret
    then finished t
        (put_value msg (codes "Key '" ++ decimal t.message.key ++ codes "' does not exist"))
    else finished t (record msg { status = pos 0 })
resume_at start deleting t (ret, out) =
    if is_neg ret
    then finished t
        (put_value (record t.message { status = pos 1 }) (codes "Failed to delete key.\n"))
    else finished t (record t.message { status = pos 0 })
resume_at checked handler t (ret', out) =
    if is_neg ret'
    then finished t (put_value (record t.message { status = ret' }) (failure_of t.handler))
    else finished t (record t.message { status = pos 0 })
resume_at done handler t answer = t

abbrev pub resume : Thread → Answer → Thread
resume t answer = resume_at t.phase t.handler t answer

-- A thread, and how far it is in the call that it makes next.
pub record Worker : Type 0 where
  pub thread : Thread
  pub stage : Stage

-- A call that the thread does not have: no step at a lock is ever made with it.
abbrev pub asked : Option TableRequest → TableRequest
asked none = looking 0 [] 0
asked (some q) = q

unfoldable pub worker_at : ℕ → List Worker → Option Worker
worker_at i [] = none
worker_at zero (w ∷ ws) = some w
worker_at (suc i) (w ∷ ws) = worker_at i ws

module _ ⦃hashing : Hashing⦄ (bits : ℕ) where
  -- The worker at the locks, in the bucket of its key.
  abbrev pub caller_of : Worker → Caller
  caller_of w = record {
    request = asked (request_of w.thread);
    bucket = hashing.hash_min w.thread.message.key bits;
    stage = w.stage;
  }

  abbrev at_lock : Worker → Caller × Machine → Worker × Machine
  at_lock w (c, m) = (record w { stage = c.stage }, m)

  -- The call is entered; without a request it has failed at once.
  abbrev pub enters : ℕ → Worker → Machine → Option TableRequest → Worker × Machine
  enters i w m none = (record w { thread = resume w.thread (neg enomem, []) }, m)
  enters i w m (some q) = at_lock w (step_at waiting i (caller_of w) m)

  unfoldable pub work_at : Stage → ℕ → Worker → Machine → Worker × Machine
  unfolding request_at resume_at step_at
  work_at waiting i w m = enters i w m (request_of w.thread)
  work_at locked i w m = at_lock w (step_at locked i (caller_of w) m)
  work_at (walked c) i w m = at_lock w (step_at (walked c) i (caller_of w) m)
  work_at (written answer) i w m = at_lock w (step_at (written answer) i (caller_of w) m)
  work_at (left answer) i w m = (record w { thread = resume w.thread answer; stage = waiting }, m)

  abbrev pub worked : ℕ → List Worker → Machine → Option Worker → List Worker × Machine
  worked i ws m none = (ws, m)
  worked i ws m (some w) = let (w', m') = work_at w.stage i w m in (set ws i w', m')

  -- The worker with this number takes its next step; a number without a worker does nothing.
  unfoldable pub one_work : ℕ → List Worker → Machine → List Worker × Machine
  unfolding work_at worker_at
  one_work i ws m = worked i ws m (worker_at i ws)

  unfoldable pub works : List ℕ → List Worker → Machine → List Worker × Machine
  works [] ws m = (ws, m)
  works (i ∷ is) ws m = let (ws', m') = one_work i ws m in works is ws' m'
