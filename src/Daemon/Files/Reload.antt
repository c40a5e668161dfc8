-- ===== src/Daemon/Files/Reload.antt =====
-- What `do_kv_restore_from_file` of user/daemon/daemon.cpp brings back of a saved store.
use kvstore_lkm.Prelude.{
  ℕ, suc, ◌≡◌, ◌≤◌, ◌<◌, ◌^◌, refl, sym, ap, ◌∙◌, Option, none, some, List, [], ◌∷◌, ◌++◌, arith, ℤ,
  pos, length, flatten, length-take, length-replicate,
}
use kvstore_lkm.Text.{c_string, c_string-append, length-put_text}
use kvstore_lkm.Message.{kv_insert, KvMessage, zero_value}
use kvstore_lkm.Hash.Chain.{Entry, Chain, AllStrings}
use kvstore_lkm.Hash.Table.{Hashing, Kernel, IsValid}
use kvstore_lkm.Hash.Ops.{message_of}
use kvstore_lkm.Hash.View.{Contents, contents, update, entry_total, entry_total-IsValid}
use kvstore_lkm.Hash.Snapshot.{messages}
use kvstore_lkm.Hash.Export.{
  find_message, key_count, cut, snapshot_contents, message_of-value, AllStrings-flatten,
}
use kvstore_lkm.Device.Handlers.{Env}
use kvstore_lkm.Device.Ioctl.{handle_kv_message}
use kvstore_lkm.Device.Refine.{message-Answers}
use kvstore_lkm.Device.Values.{IsTerminated}
use kvstore_lkm.Device.RoundTrip.{IsLucky, insert_new}
use kvstore_lkm.Daemon.Files.{
  SnapshotFile, Saving, restore_entries, loaded, do_kv_snapshot_to_file, do_kv_restore_from_file,
}
use kvstore_lkm.Daemon.Files.Save.{IsSaved, save_lem, take_front, length-messages}
use kvstore_lkm.Daemon.Files.Restore.{counted, round_run}

abbrev pub AllFit : List KvMessage → Type 0
AllFit [] = Unit
AllFit (m ∷ ms) = IsTerminated m × AllFit ms

abbrev pub or_else : Option (List ℕ) → Option (List ℕ) → Option (List ℕ)
or_else none p = p
or_else (some v) p = some v

-- Each key stands in the messages once at most, and those that do are not stored yet.
abbrev pub IsNew : Contents → List KvMessage → Type 0
IsNew f ms = (q : ℕ) → (key_count q ms ≤ 1) × (0 < key_count q ms → f q ≡ none)

find_message_absent : (q : ℕ) (ms : List KvMessage) → key_count q ms ≡ 0 → find_message q ms ≡ none
unfolding find_message key_count
find_message_absent q [] h = refl
find_message_absent q (m ∷ ms) h = ground (arith, find_message_absent q ms)

merge_step :
    (m : KvMessage) (ms : List KvMessage) (f : Contents) (q : ℕ)
    → key_count q (m ∷ ms) ≤ 1
    → or_else (find_message q ms) (update f m.key (some (c_string m.value)) q)
      ≡ or_else (find_message q (m ∷ ms)) (f q)
unfolding find_message key_count
merge_step m ms f q h = ground (arith, find_message_absent q ms)

first_new : (m : KvMessage) (ms : List KvMessage) (f : Contents) → IsNew f (m ∷ ms) → f m.key ≡ none
first_new m ms f new =
    let here : 0 < key_count m.key (m ∷ ms) = unfold key_count in ground arith in (new m.key).1 here

rest-IsNew :
    (m : KvMessage) (ms : List KvMessage) (f g : Contents)
    → ((q : ℕ) → g q ≡ update f m.key (some (c_string m.value)) q)
    → IsNew f (m ∷ ms)
    → IsNew g ms
unfolding key_count
rest-IsNew m ms f g reads new q =
    let old = new q in (ground (arith, old.0), λ more. ground (arith, old.0, old.1, reads q))

module _ ⦃hashing : Hashing⦄ where
  -- The store after the loop: valid, and with the messages' strings added.
  pub record Restores (others : ℕ) (k : Kernel) (ms : List KvMessage) (r : (ℕ × ℕ) × Kernel)
      : Type 0 where
    pub chains : List Chain
    pub valid : IsValid others r.1 chains
    pub reads : (q : ℕ) → contents r.1 q ≡ or_else (find_message q ms) (contents k q)

  pub restore_lem :
      {others : ℕ} (envs : ℕ → Env) (header_status : ℤ) (i : ℕ) (ms : List KvMessage)
      (counts : ℕ × ℕ) {k : Kernel} {bs : List Chain}
      → IsValid others k bs
      → ((j : ℕ) → IsLucky (envs j))
      → AllFit ms
      → IsNew (contents k) ms
      → Restores others k ms (restore_entries envs header_status i ms counts k)
  restore_lem envs header_status i [] counts {k} {bs} valid lucky fit new =
      unfold restore_entries find_message in
      record { chains = bs; valid = valid; reads = λ q. refl }
  restore_lem {others} envs header_status i (m ∷ ms) counts {k} valid lucky fit new =
      let a = message-Answers valid (envs i) kv_insert m in
      let run = insert_new (envs i) m (contents k) (lucky i) (first_new m ms (contents k) new) in
      let k' = (handle_kv_message (envs i) kv_insert m k).2 in
      let code : (handle_kv_message (envs i) kv_insert m k).0 ≡ pos 0 = rw run at a.code in
      let string : c_string (m.value ++ (envs i).beyond) ≡ c_string m.value =
        c_string-append m.value (envs i).beyond (omega (arith, fit.0.size, fit.0.ends)) in
      let reads : (q : ℕ) → contents k' q ≡ update (contents k) m.key (some (c_string m.value)) q =
        λ q. rw (run, string) at (a.reads q) in
      let rest =
        restore_lem envs header_status (suc i) ms (counted header_status 1 counts) a.valid lucky
          fit.1 (rest-IsNew m ms (contents k) (contents k') reads new) in
      rw (round_run envs header_status i m ms counts k code) (record {
        chains = rest.chains;
        valid = rest.valid;
        reads = λ q.
            rest.reads q
            ∙ ap (or_else (find_message q ms)) (reads q)
            ∙ merge_step m ms (contents k) q (new q).0;
      })

message_of-IsTerminated : (e : Entry) → AllStrings (e ∷ []) → IsTerminated (message_of e)
message_of-IsTerminated e h = record {
  size =
      unfold message_of in (length-put_text zero_value 64 e.value ∙ length-replicate {A = ℕ} 64 0);
  ends = rw (message_of-value e h.0) (omega (arith, length-take 63 e.value));
}

messages-AllFit : (c : Chain) → AllStrings c → AllFit (messages c)
messages-AllFit [] h = tt
messages-AllFit (e ∷ c) h = (message_of-IsTerminated e (h.0, tt), messages-AllFit c h.1)

nothing_before : (o : Option (List ℕ)) → or_else o none ≡ o
nothing_before none = refl
nothing_before (some v) = refl

module _ ⦃hashing : Hashing⦄ {others others' : ℕ} {k k₀ : Kernel} {bs bs₀ : List Chain}
    (valid : IsValid others k bs) (few : entry_total k < 2 ^ 31) (some_there : 0 < entry_total k)
    (valid₀ : IsValid others' k₀ bs₀) (empty : (q : ℕ) → contents k₀ q ≡ none) where
  -- Let a valid table have at least one entry and below 2^31. If it is saved with every call and
  -- allocation of the save succeeding and with no change between its two calls, and the file is
  -- restored into a valid table with no key, by calls that succeed, then the restored table is
  -- valid and has for every key what the saved one had, cut to 63 bytes.
  pub restore-save :
      (s : Saving) (file : Option SnapshotFile) (envs : ℕ → Env) (garbage : List KvMessage)
      → IsSaved s
      → s.between k ≡ k
      → ((j : ℕ) → IsLucky (envs j))
      → (bs' : List Chain) × IsValid others'
          (do_kv_restore_from_file envs garbage (do_kv_snapshot_to_file s file k).0 k₀).1
          bs'
        × ((q : ℕ)
            → contents
                (do_kv_restore_from_file envs garbage (do_kv_snapshot_to_file s file k).0 k₀).1
                q
              ≡ cut (contents k q))
  restore-save s file envs garbage works alone lucky =
      let ms = messages (flatten bs) in
      let saved = save_lem valid few s file works some_there alone in
      let f : SnapshotFile = record {
        status = pos 0;
        capacity = entry_total k;
        count = entry_total k;
        entries = ms;
      } in
      let read : loaded f garbage ≡ ms =
        let size : length ms ≡ entry_total k =
          length-messages (flatten bs) ∙ sym (entry_total-IsValid valid) in
        unfold loaded in rw (sym size) (take_front ms garbage) in
      let new : IsNew (contents k₀) ms = λ q. ((snapshot_contents valid q).1, λ more. empty q) in
      let fit : AllFit ms = messages-AllFit (flatten bs) (AllStrings-flatten bs valid.strings) in
      let r = restore_lem envs (pos 0) 0 ms (0, 0) valid₀ lucky fit new in
      let run : (do_kv_restore_from_file envs garbage (do_kv_snapshot_to_file s file k).0 k₀).1
          ≡ (restore_entries envs (pos 0) 0 ms (0, 0) k₀).1 =
        rw saved (unfold do_kv_restore_from_file in rw read) in
      rw run (
        r.chains,
        r.valid,
        λ q.
            r.reads q
            ∙ ap (or_else (find_message q ms)) (empty q)
            ∙ nothing_before (find_message q ms)
            ∙ (snapshot_contents valid q).0,
      )
