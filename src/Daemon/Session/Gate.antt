-- ===== src/Daemon/Session/Gate.antt =====
-- What a connection reaches that never gets past AUTH: `handle_client` of user/daemon/daemon.cpp.
use kvstore_lkm.Prelude.{ℕ, ◌≡◌, refl, Bool, true, false, not, List, [], ◌∷◌, if◌then◌else◌, take}
use kvstore_lkm.Text.{c_string}
use kvstore_lkm.Hash.Table.{Hashing}
use kvstore_lkm.Daemon.Command.{Server}
use kvstore_lkm.Daemon.Command.Access.{Refuses, unauthenticated_refused}
use kvstore_lkm.Daemon.Session.{
  Read, bytes, end_of_file, interrupted, failed, Round, Ended, handle_client,
}

-- No round reads an AUTH that PAM accepts.
abbrev pub AllRefuse : List Round → Type 0
AllRefuse [] = Unit
AllRefuse (r ∷ rs) =
    ((received : List ℕ)
      → r.read ≡ bytes received
      → Refuses r.setting.pam (c_string (take 1023 received)))
    × AllRefuse rs

-- What every read and every write has, a round has.
by_read :
    (P : List (List ℕ) × Ended × Server → Type 0) (r : Read)
    (e f i : List (List ℕ) × Ended × Server) (g : List ℕ → List (List ℕ) × Ended × Server)
    → P e
    → P f
    → P i
    → ((received : List ℕ) → r ≡ bytes received → P (g received))
    → P (elim r [ end_of_file ↦ e | failed ↦ f | interrupted ↦ i | bytes received ↦ g received ])
by_read P end_of_file e f i g he hf hi hg = he
by_read P failed e f i g he hf hi hg = hf
by_read P interrupted e f i g he hf hi hg = hi
by_read P (bytes received) e f i g he hf hi hg = hg received refl

by_write :
    (P : List (List ℕ) × Ended × Server → Type 0) (b : Bool) (x y : List (List ℕ) × Ended × Server)
    → P x
    → P y
    → P (if not b then x else y)
by_write P true x y h g = g
by_write P false x y h g = h

module _ ⦃hashing : Hashing⦄ where
  -- Over a whole connection, whatever bytes arrive: if the connection starts unauthenticated, and
  -- no command that it reads is an AUTH with a user name and a password that PAM accepts, then the
  -- store, the snapshot file and the connection are at its end as they were at its start.
  pub refused_session :
      (rs : List Round) (v : Server)
      → v.authenticated ≡ false
      → AllRefuse rs
      → (handle_client rs v).2 ≡ v
  unfolding handle_client
  refused_session [] v closed all = refl
  refused_session (r ∷ rs) v closed (refuses, all) =
      let P = (λ (x : List (List ℕ) × Ended × Server). x.2 ≡ v) in
      by_read P r.read _ _ _ _ refl refl (refused_session rs v closed all) (λ received read.
        let same =
          unauthenticated_refused r.setting (c_string (take 1023 received)) v closed
            (refuses received read) in
        by_write P r.write_ok _ _ same (rw (same, refused_session rs v closed all)))
