-- ===== src/Tests/Daemon.antt =====
-- The server of user/daemon at small inputs.
use kvstore_lkm.Prelude.{
  ℕ, ◌≡◌, refl, true, false, none, some, List, [], ◌∷◌, arith, pos, codes, flatten,
}
use kvstore_lkm.Message.{KvMessage}
use kvstore_lkm.Hash.Chain.{Chain}
use kvstore_lkm.Hash.Table.{IsValid}
use kvstore_lkm.Hash.View.{contents}
use kvstore_lkm.Hash.Snapshot.{messages}
use kvstore_lkm.Hash.Export.{cut}
use kvstore_lkm.Daemon.Auth.{authenticate}
use kvstore_lkm.Daemon.Files.{SnapshotFile, Saving, do_kv_snapshot_to_file, do_kv_restore_from_file}
use kvstore_lkm.Daemon.Files.Save.{IsSaved, save_race}
use kvstore_lkm.Daemon.Files.Reload.{restore-save}
use kvstore_lkm.Daemon.Session.{Round, bytes, handle_client}
use kvstore_lkm.Daemon.Session.Gate.{AllRefuse, refused_session}
use kvstore_lkm.Daemon.Main.{
  client, interrupted, failed, Life, init_kv, init_network, listen_network, Exit, restored, main,
}
use kvstore_lkm.Daemon.Main.Restart.{IsServed, restart}
use kvstore_lkm.Tests.World.{
  low_bits, program, empty, empty-IsValid, empty_lacks, hi, one, one-IsValid, one_chains, one_few,
  one_there, one_total, none_total, calm, calm-IsLucky, alone, setting, server,
}

-- Another thread's table appears between the two calls.
abbrev emptied : Saving
emptied = record alone { between = λ k. empty }

alone-IsSaved : IsSaved alone
alone-IsSaved = record {
  counted = refl;
  allocated = refl;
  copied_in = refl;
  copied_out = refl;
  memory = refl;
  opened = refl;
}

emptied-IsSaved : IsSaved emptied
emptied-IsSaved = record {
  counted = refl;
  allocated = refl;
  copied_in = refl;
  copied_out = refl;
  memory = refl;
  opened = refl;
}

abbrev saved_one : SnapshotFile
saved_one = record {
  status = pos 0;
  capacity = 1;
  count = 1;
  entries = messages (flatten one_chains);
}

save_race_example :
    do_kv_snapshot_to_file emptied (some saved_one) one
    ≡ (some (record { status = pos 0; capacity = 1; count = 0; entries = [] }), empty)
unfolding program
save_race_example =
    save_race one-IsValid one_few emptied (some saved_one) emptied-IsSaved one_there empty-IsValid
      (omega (arith, none_total)) (λ e. omega (arith, e, none_total, one_total))

restore-save_example :
    (bs' : List Chain) × IsValid 5
      (do_kv_restore_from_file (λ i. calm) [] (do_kv_snapshot_to_file alone none one).0 empty).1
      bs'
    × ((q : ℕ)
        → contents
            (do_kv_restore_from_file
              (λ i. calm)
              []
              (do_kv_snapshot_to_file alone none one).0
              empty).1
            q
          ≡ cut (contents one q))
restore-save_example =
    restore-save one-IsValid one_few one_there empty-IsValid empty_lacks alone none (λ i. calm) []
      alone-IsSaved refl (λ j. calm-IsLucky)

abbrev three_hi : KvMessage
three_hi = record { status = pos 0; key = 3; value = hi }

abbrev rounds : List Round
rounds =
    record { read = bytes (codes "AUTH ann pw"); setting = setting; write_ok = true }
    ∷ record { read = bytes (codes "KV_DELETE 3"); setting = setting; write_ok = true }
    ∷ []

all_refuse : AllRefuse rounds
unfolding authenticate
all_refuse = (
  (λ received read w user password a b c d. refl),
  ((λ received read w user password a b c d. refl), tt),
)

refused_session_example : (handle_client rounds (server false)).2 ≡ server false
refused_session_example = refused_session rounds (server false) refl all_refuse

-- Two clients are served, the store becomes the one with an entry, and then a signal arrives.
abbrev life : Life
life = record {
  opened = pos 3;
  restore_envs = λ i. calm;
  garbage = [];
  socket = some 4;
  reuse_ok = true;
  bind_ok = true;
  listen_ok = true;
  shutdown_before = false;
  turns =
      record { accept = client 5; shutdown = false }
      ∷ record { accept = failed; shutdown = false }
      ∷ record { accept = client 6; shutdown = false }
      ∷ record { accept = interrupted; shutdown = true }
      ∷ [];
  signals = 1;
  serve = λ clients s. (none, one);
  saving = alone;
}

life-IsServed : IsServed life 4 (5 ∷ 6 ∷ [])
unfolding init_kv init_network listen_network
life-IsServed = record { device = refl; network = refl; ended = refl }

restart_example :
    (exit : Exit) × (main life none empty ≡ some exit)
    × (exit.code ≡ 0)
    × ((q : ℕ) → contents (restored life exit.file empty) q ≡ cut (contents one q))
restart_example =
    restart life life 4 (5 ∷ 6 ∷ []) none empty life-IsServed one-IsValid one_few one_there
      alone-IsSaved refl empty-IsValid empty_lacks (λ j. calm-IsLucky)
