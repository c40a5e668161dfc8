-- ===== src/Device/Walk/Torn.antt =====
-- A snapshot of kernel/kv_hash.c that shows a later insert and not an earlier one.
use kvstore_lkm.Prelude.{
  ℕ, true, false, zero, suc, ◌≤◌, ◌<◌, ◌≡◌, ◌≢◌, refl, ap, ◌∙◌, none, some, List, [], ◌∷◌, ◌++◌,
  arith, ◌==◌, if◌then◌else◌, length, take, pos,
}
use kvstore_lkm.Text.{c_string}
use kvstore_lkm.Message.{KvMessage}
use kvstore_lkm.Hash.Chain.{Chain}
use kvstore_lkm.Hash.Table.{Hashing, Kernel, IsValid}
use kvstore_lkm.Hash.View.{Contents, contents, update}
use kvstore_lkm.Hash.Export.{cut, find_message}
use kvstore_lkm.Device.Handlers.{Env}
use kvstore_lkm.Device.RoundTrip.{IsLucky}
use kvstore_lkm.Device.Interleave.{checked, inserting, Thread, finished, interleave}
use kvstore_lkm.Device.Interleave.Promise.{spec_interleave}
use kvstore_lkm.Device.Interleave.Atomic.{interleave-Agrees}
use kvstore_lkm.Device.Interleave.Race.{
  fresh_thread, first_steps, second_steps, insert_passes, write_done,
}
use kvstore_lkm.Device.Walk.{Gaps, kv_hash_snapshot_among}
use kvstore_lkm.Device.Walk.Moments.{reached}
use kvstore_lkm.Device.Walk.Snapshot.{snapshot-Written}

abbrev pub value_in : Env → KvMessage → List ℕ
value_in env msg = c_string (msg.value ++ env.beyond)

-- Two threads, each in front of an insert.
abbrev pub two_inserts : Env → Env → KvMessage → KvMessage → List Thread
two_inserts env env' msg msg' =
    fresh_thread inserting env msg ∷ fresh_thread inserting env' msg' ∷ []

-- Nothing, until the walk is in front of this bucket; then the first thread and after it the second.
abbrev pub inserts_before : ℕ → Gaps
inserts_before late bucket = if bucket == late then 0 ∷ 0 ∷ 1 ∷ 1 ∷ [] else []

abbrev after_first : Env → KvMessage → Contents → Contents
after_first env msg f = update f msg.key (some (value_in env msg))

abbrev first_done : Env → KvMessage → Thread
first_done env msg = finished (fresh_thread inserting env msg) (record msg { status = pos 0 })

module _ (env env' : Env) (msg msg' : KvMessage) (lucky : IsLucky env) (f : Contents)
    (absent : f msg.key ≡ none) where
  first_inserts :
      (is : List ℕ)
      → spec_interleave (0 ∷ 0 ∷ is) (two_inserts env env' msg msg') f
        ≡ spec_interleave is
            (first_done env msg ∷ fresh_thread inserting env' msg' ∷ [])
            (after_first env msg f)
  first_inserts is =
      let t = fresh_thread inserting env msg in
      let t' = fresh_thread inserting env' msg' in
      let u : Thread = record t { phase = checked } in
      first_steps t u (t' ∷ []) (0 ∷ is) f f (insert_passes t f absent)
      ∙ first_steps u (first_done env msg) (t' ∷ []) is f (after_first env msg f)
          (write_done u f inserting lucky)

  both_insert :
      IsLucky env'
      → f msg'.key ≡ none
      → msg.key ≢ msg'.key
      → (spec_interleave (0 ∷ 0 ∷ 1 ∷ 1 ∷ []) (two_inserts env env' msg msg') f).1
        ≡ update (after_first env msg f) msg'.key (some (value_in env' msg'))
  both_insert lucky' absent' apart =
      let t' = fresh_thread inserting env' msg' in
      let u' : Thread = record t' { phase = checked } in
      let g = after_first env msg f in
      let free : g msg'.key ≡ none = ground (arith, absent', apart) in
      ap (λ (r : List Thread × Contents). r.1)
        (first_inserts (1 ∷ 1 ∷ [])
          ∙ second_steps (first_done env msg) t' u' [] (1 ∷ []) g g (insert_passes t' g free)
          ∙ second_steps (first_done env msg) u' _ [] [] g _ (write_done u' g inserting lucky'))

module _ ⦃hashing : Hashing⦄ where
  reached_early :
      (late b : ℕ) (ts : List Thread) (k : Kernel)
      → b ≤ late
      → reached (inserts_before late) b ts k ≡ (ts, k)
  unfolding reached interleave
  reached_early late zero ts k h = refl
  reached_early late (suc b) ts k h =
      let early : (b == late) ≡ false = ground (arith, h) in
      rw (early, reached_early late b ts k (omega (arith, h))) refl

  reached_late :
      (late : ℕ) (ts : List Thread) (k : Kernel)
      → reached (inserts_before late) (suc late) ts k ≡ interleave (0 ∷ 0 ∷ 1 ∷ 1 ∷ []) ts k
  unfolding reached
  reached_late late ts k =
      let here : (late == late) ≡ true = ground arith in
      rw (here, reached_early late late ts k (omega arith)) refl

  -- A snapshot is no state of the store: on a valid table without the keys of two messages, the
  -- first in an earlier bucket than the second, if a thread inserts the first and after it another
  -- thread inserts the second, both with their allocations, while `kv_hash_snapshot` is in front of
  -- the bucket of the second, and the snapshot does not reach its limit, then it has the second key
  -- with its value, cut to 63 bytes, and not the first, although the first was in the table before
  -- the second was.
  pub snapshot_torn :
      {others : ℕ} {k : Kernel} {bs : List Chain} (valid : IsValid others k bs) (env env' : Env)
      (msg msg' : KvMessage) (entries : List KvMessage) (max_entries out_count : ℕ)
      → IsLucky env
      → IsLucky env'
      → contents k msg.key ≡ none
      → contents k msg'.key ≡ none
      → hashing.hash_min msg.key k.table.bits < hashing.hash_min msg'.key k.table.bits
      → 0 < max_entries
      → max_entries ≤ length entries
      → let ts = two_inserts env env' msg msg' in
        let gaps = inserts_before (hashing.hash_min msg'.key k.table.bits) in
        let r = kv_hash_snapshot_among gaps entries max_entries out_count ts k in
        let between = interleave (0 ∷ 0 ∷ []) ts k in
        r.2 < max_entries
        → (contents between.1 msg.key ≡ some (value_in env msg))
          × (contents between.1 msg'.key ≡ none)
          × (find_message msg.key (take r.2 r.1) ≡ none)
          × (find_message msg'.key (take r.2 r.1) ≡ some (take 63 (value_in env' msg')))
  snapshot_torn {k = k} valid env env' msg msg' entries max_entries out_count lucky lucky' absent
        absent' before h room less =
      let ts = two_inserts env env' msg msg' in
      let late = hashing.hash_min msg'.key k.table.bits in
      let early = hashing.hash_min msg.key k.table.bits in
      let gaps = inserts_before late in
      let w = snapshot-Written valid gaps ts entries max_entries out_count h room in
      let all : w.total ≤ max_entries = omega (arith, less, w.number) in
      let a = interleave-Agrees (0 ∷ 0 ∷ []) ts valid in
      let b = interleave-Agrees (0 ∷ 0 ∷ 1 ∷ 1 ∷ []) ts valid in
      let run = first_inserts env env' msg msg' lucky (contents k) absent [] in
      let apart : msg.key ≢ msg'.key =
        λ e. omega (arith, before, ap (λ q. hashing.hash_min q k.table.bits) e) in
      let both = both_insert env env' msg msg' lucky (contents k) absent lucky' absent' apart in
      let not_yet =
        ap (λ (s : List Thread × Kernel). contents s.1 msg.key)
          (reached_early late (suc early) ts k (omega (arith, before)))
        ∙ absent in
      let last : update (after_first env msg (contents k)) msg'.key (some (value_in env' msg'))
            msg'.key
          ≡ some (value_in env' msg') =
        ground arith in
      let there =
        ap (λ (s : List Thread × Kernel). contents s.1 msg'.key) (reached_late late ts k)
        ∙ b.reads msg'.key
        ∙ ap (λ (f : Contents). f msg'.key) both
        ∙ last in
      (
        a.reads msg.key ∙ ap (λ (r : List Thread × Contents). r.1 msg.key) run ∙ ground arith,
        a.reads msg'.key
            ∙ ap (λ (r : List Thread × Contents). r.1 msg'.key) run
            ∙ ground (arith, absent', apart),
        w.complete msg.key all ∙ ap cut not_yet,
        w.complete msg'.key all ∙ ap cut there,
      )
