-- ===== src/Daemon/Files/Restore.antt =====
-- `do_kv_restore_from_file` of user/daemon/daemon.cpp: what the store and the counters are afterwards.
use kvstore_lkm.Prelude.{
  ℕ, suc, ◌+◌, ◌≡◌, refl, sym, ap, ◌∙◌, true, not, ◌||◌, List, [], ◌∷◌, arith, if◌then◌else◌, ℤ,
  pos, is_neg, eq_nat, length,
}
use kvstore_lkm.Message.{kv_insert, KvMessage}
use kvstore_lkm.Hash.Chain.{Chain}
use kvstore_lkm.Hash.Table.{Hashing, Kernel, IsValid}
use kvstore_lkm.Hash.View.{Contents, contents}
use kvstore_lkm.Device.Handlers.{Env}
use kvstore_lkm.Device.Ioctl.{handle_kv_message, kv_ioctl}
use kvstore_lkm.Device.Refine.{spec_message, message-Answers}
use kvstore_lkm.Daemon.Files.{restore_entries}

-- Both copies of the call succeed; memory may fail.
pub record IsCopied (env : Env) : Type 0 where
  pub copied_in : env.copy_in ≡ true
  pub copied_out : env.copy_out ≡ true

insert_code :
    (env : Env) (msg : KvMessage) (f : Contents)
    → IsCopied env
    → (spec_message env kv_insert msg f).0 ≡ pos 0
insert_code env msg f copied = ground (arith, copied.copied_in, copied.copied_out)

-- The two counters, by the status of the header alone.
abbrev pub counted : ℤ → ℕ → ℕ × ℕ → ℕ × ℕ
counted header_status n (restored, skipped) =
    if eq_nat header_status 0 then (restored + n, skipped) else (restored, skipped + n)

step_counted :
    (header_status ret : ℤ) (counts : ℕ × ℕ)
    → ret ≡ pos 0
    → (if is_neg ret || not (eq_nat header_status 0)
        then (counts.0, suc counts.1)
        else (suc counts.0, counts.1))
      ≡ counted header_status 1 counts
step_counted header_status ret counts h = ground (arith, h)

counted_none : (header_status : ℤ) (counts : ℕ × ℕ) → counted header_status 0 counts ≡ counts
counted_none header_status counts = ground arith

counted_more :
    (header_status : ℤ) (n : ℕ) (counts : ℕ × ℕ)
    → counted header_status n (counted header_status 1 counts)
      ≡ counted header_status (suc n) counts
counted_more header_status n counts = ground arith

module _ ⦃hashing : Hashing⦄ where
  -- One round of the loop, for what its call answers.
  pub round_run :
      (envs : ℕ → Env) (header_status : ℤ) (i : ℕ) (entry : KvMessage) (entries : List KvMessage)
      (counts : ℕ × ℕ) (k : Kernel)
      → (handle_kv_message (envs i) kv_insert entry k).0 ≡ pos 0
      → restore_entries envs header_status i (entry ∷ entries) counts k
        ≡ restore_entries envs header_status
            (suc i)
            entries
            (counted header_status 1 counts)
            (handle_kv_message (envs i) kv_insert entry k).2
  round_run envs header_status i entry entries counts k e =
      let reply = handle_kv_message (envs i) kv_insert entry k in
      let round : restore_entries envs header_status i (entry ∷ entries) counts k
          ≡ restore_entries envs header_status (suc i) entries
              (if is_neg reply.0 || not (eq_nat header_status 0)
                then (counts.0, suc counts.1)
                else (suc counts.0, counts.1))
              reply.2 =
        unfold restore_entries kv_ioctl in refl in
      round
      ∙ ap (λ (c : ℕ × ℕ). restore_entries envs header_status (suc i) entries c reply.2)
          (step_counted header_status reply.0 counts e)

  -- On a valid table, if the copies of every call succeed, the two counters of a restore depend
  -- only on the status of the header and the number of entries: with status 0 every entry counts as
  -- restored, with any other every entry counts as skipped, whatever the device did with it.
  pub restore_counts :
      {others : ℕ} (envs : ℕ → Env) (header_status : ℤ) (i : ℕ) (entries : List KvMessage)
      (counts : ℕ × ℕ) {k : Kernel} {bs : List Chain}
      → IsValid others k bs
      → ((j : ℕ) → IsCopied (envs j))
      → (restore_entries envs header_status i entries counts k).0
        ≡ counted header_status (length entries) counts
  restore_counts envs header_status i [] counts valid copied =
      unfold restore_entries in sym (counted_none header_status counts)
  restore_counts envs header_status i (entry ∷ entries) counts {k = k} valid copied =
      let a = message-Answers valid (envs i) kv_insert entry in
      let code = a.code ∙ insert_code (envs i) entry (contents k) (copied i) in
      let next = counted header_status 1 counts in
      ap (λ (r : (ℕ × ℕ) × Kernel). r.0)
        (round_run envs header_status i entry entries counts k code)
      ∙ restore_counts envs header_status (suc i) entries next a.valid copied
      ∙ counted_more header_status (length entries) counts
