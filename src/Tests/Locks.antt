-- ===== src/Tests/Locks.antt =====
-- Two threads at one lock of kernel/kv_hash.c: one removes the key that the other looks up.
use kvstore_lkm.Prelude.{ℕ, zero, suc, ◌≡◌, refl, List, [], ◌∷◌, arith, pos, flatten, replicate}
use kvstore_lkm.Hash.Locks.{
  TableRequest, removing, looking, waiting, locked, Caller, one_move, step_at, caller_at, moves,
}
use kvstore_lkm.Hash.Locks.Calls.{free, AllWaiting, calls_apart, calls_end}
use kvstore_lkm.Hash.Locks.Rounds.{NamesAll, AllRounds, AllLeft}
use kvstore_lkm.Hash.Locks.Operations.{OneByOne, moves-OneByOne}
use kvstore_lkm.Message.{KvMessage}
use kvstore_lkm.Device.Interleave.{inserting, getting, deleting}
use kvstore_lkm.Device.Interleave.Race.{fresh_thread}
use kvstore_lkm.Device.Locked.Serial.{Linear, works-Linear}
use kvstore_lkm.Tests.World.{hi, calm, one-IsValid, low_bits, program, one, one_chains}

abbrev caller : TableRequest → Caller
caller q = record { request = q; bucket = 1; stage = waiting }

abbrev callers : List Caller
callers = caller (removing 3) ∷ caller (looking 3 (9 ∷ 9 ∷ 9 ∷ []) 3) ∷ []

waits : AllWaiting 2 callers
waits = (refl, omega arith, (refl, omega arith, tt))

abbrev schedule : List ℕ
schedule = 1 ∷ 0 ∷ 1 ∷ 0 ∷ 1 ∷ 1 ∷ 0 ∷ 0 ∷ 0 ∷ 0 ∷ []

moves-OneByOne_example : OneByOne schedule callers one_chains one
unfolding program
moves-OneByOne_example =
    moves-OneByOne schedule callers one_chains one refl waits (refl, ((refl, omega arith), tt))

calls_apart_example : ◌≡◌ {A = ℕ} 0 0
unfolding moves one_move step_at caller_at replicate
calls_apart_example =
    calls_apart one_chains callers waits (0 ∷ 1 ∷ []) 0 0
      (record (caller (removing 3)) { stage = locked })
      (record (caller (removing 3)) { stage = locked }) refl refl refl refl refl

both : NamesAll 2 (0 ∷ 1 ∷ [])
both zero few = refl
both (suc zero) few = refl
both (suc (suc i)) few = absurd (omega (arith, few))

turns : AllRounds 2 (replicate 8 (0 ∷ 1 ∷ []))
unfolding replicate
turns = (both, (both, (both, (both, (both, (both, (both, (both, tt))))))))

calls_end_example : AllLeft (moves (flatten (replicate 8 (0 ∷ 1 ∷ []))) callers (free one_chains)).0
unfolding replicate
calls_end_example =
    calls_end one_chains callers waits (replicate 8 (0 ∷ 1 ∷ [])) turns (omega arith)

abbrev four_hi : KvMessage
four_hi = record { status = pos 0; key = 4; value = hi }

abbrev three_hi : KvMessage
three_hi = record { status = pos 0; key = 3; value = hi }

works-Linear_example :
    Linear
      (0 ∷ 1 ∷ 1 ∷ 0 ∷ 2 ∷ 1 ∷ 0 ∷ 2 ∷ 0 ∷ 0 ∷ 2 ∷ 0 ∷ [])
      (fresh_thread inserting calm four_hi
        ∷ fresh_thread deleting calm three_hi
        ∷ fresh_thread getting calm three_hi
        ∷ [])
      one_chains
      one
works-Linear_example =
    works-Linear (0 ∷ 1 ∷ 1 ∷ 0 ∷ 2 ∷ 1 ∷ 0 ∷ 2 ∷ 0 ∷ 0 ∷ 2 ∷ 0 ∷ [])
      (fresh_thread inserting calm four_hi
        ∷ fresh_thread deleting calm three_hi
        ∷ fresh_thread getting calm three_hi
        ∷ [])
      one-IsValid
