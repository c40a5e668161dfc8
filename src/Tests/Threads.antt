-- ===== src/Tests/Threads.antt =====
-- Threads in the handlers of kernel/kvlkm.c at small inputs.
use kvstore_lkm.Prelude.{◌≡◌, refl, some, List, [], ◌∷◌, arith, pos, replicate}
use kvstore_lkm.Message.{KvMessage}
use kvstore_lkm.Hash.View.{contents}
use kvstore_lkm.Device.Interleave.{inserting, updating, deleting, Thread, finished, interleave}
use kvstore_lkm.Device.Interleave.Promise.{spec_interleave}
use kvstore_lkm.Device.Interleave.Atomic.{Agrees, interleave-Agrees}
use kvstore_lkm.Device.Interleave.Race.{fresh_thread, insert_race, delete_race}
use kvstore_lkm.Tests.World.{
  low_bits, program, hi, one, one-IsValid, one_holds, one_lacks, blank, calm, calm-IsLucky,
}

abbrev four_hi : KvMessage
four_hi = record { status = pos 0; key = 4; value = hi }

abbrev other_four : KvMessage
other_four = record { status = pos 0; key = 4; value = 111 ∷ replicate 63 0 }

abbrev other_three : KvMessage
other_three = record { status = pos 0; key = 3; value = 111 ∷ replicate 63 0 }

abbrev delete_three : KvMessage
delete_three = record blank { key = 3 }

abbrev two_threads : List Thread
two_threads = fresh_thread inserting calm four_hi ∷ fresh_thread deleting calm delete_three ∷ []

interleave-Agrees_example :
    Agrees 5
      (interleave (1 ∷ 0 ∷ 7 ∷ 0 ∷ 1 ∷ []) two_threads one)
      (spec_interleave (1 ∷ 0 ∷ 7 ∷ 0 ∷ 1 ∷ []) two_threads (contents one))
interleave-Agrees_example = interleave-Agrees (1 ∷ 0 ∷ 7 ∷ 0 ∷ 1 ∷ []) two_threads one-IsValid

insert_race_example :
    let threads =
      fresh_thread inserting calm four_hi ∷ fresh_thread inserting calm other_four ∷ [] in
    let r = interleave (0 ∷ 1 ∷ 0 ∷ 1 ∷ []) threads one in
    (r.0
      ≡ finished (fresh_thread inserting calm four_hi) four_hi
        ∷ finished (fresh_thread inserting calm other_four) other_four
        ∷ [])
    × (contents r.1 4 ≡ some (111 ∷ []))
unfolding program
insert_race_example =
    insert_race one-IsValid calm calm four_hi other_four refl calm-IsLucky calm-IsLucky one_lacks

delete_race_example :
    let threads =
      fresh_thread updating calm other_three ∷ fresh_thread deleting calm delete_three ∷ [] in
    let r = interleave (0 ∷ 1 ∷ 0 ∷ []) threads one in
    (r.0
      ≡ finished (fresh_thread updating calm other_three) other_three
        ∷ finished (fresh_thread deleting calm delete_three) delete_three
        ∷ [])
    × (contents r.1 3 ≡ some (111 ∷ []))
unfolding program
delete_race_example =
    delete_race one-IsValid calm calm other_three delete_three refl (104 ∷ 105 ∷ []) calm-IsLucky
      one_holds (omega arith)
