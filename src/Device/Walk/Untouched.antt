-- ===== src/Device/Walk/Untouched.antt =====
-- Keys that no thread in the handlers of kernel/kvlkm.c works on, during a snapshot.
use kvstore_lkm.Prelude.{
  ℕ, false, zero, suc, ◌≤◌, ◌<◌, ◌≡◌, refl, sym, ap, ◌∙◌, some, List, [], ◌∷◌, arith, ◌==◌, length,
  take,
}
use mathlib.Core.Path.{subst}
use kvstore_lkm.Message.{KvMessage}
use kvstore_lkm.Hash.Chain.{Chain}
use kvstore_lkm.Hash.Table.{Hashing, Kernel, IsValid}
use kvstore_lkm.Hash.View.{Contents, contents}
use kvstore_lkm.Hash.Export.{cut, find_message}
use kvstore_lkm.Device.Handlers.{put_value}
use kvstore_lkm.Device.Interleave.{
  Phase, start, checked, done, Handler, inserting, updating, getting, deleting, Thread,
}
use kvstore_lkm.Device.Interleave.Promise.{spec_section, spec_step, spec_interleave}
use kvstore_lkm.Device.Interleave.Atomic.{interleave-Agrees}
use kvstore_lkm.Device.Walk.{Gaps, kv_hash_snapshot_among}
use kvstore_lkm.Device.Walk.Moments.{reached}
use kvstore_lkm.Device.Walk.Sees.{reached-IsTable}
use kvstore_lkm.Device.Walk.Snapshot.{snapshot-Written}

-- No thread works on the key.
abbrev pub AllAway : ℕ → List Thread → Type 0
AllAway q [] = Unit
AllAway q (t ∷ ts) = ((t.message.key == q) ≡ false) × AllAway q ts

-- A section keeps the thread's key, and the values of the other keys.
section_key :
    (p : Phase) (h : Handler) (t : Thread) (f : Contents)
    → (spec_section p h t f).0.message.key ≡ t.message.key
unfolding put_value
section_key start inserting t f = ground arith
section_key start updating t f = ground arith
section_key start getting t f = ground arith
section_key start deleting t f = ground arith
section_key checked h t f = ground arith
section_key done h t f = refl

section_away :
    (q : ℕ) (p : Phase) (h : Handler) (t : Thread) (f : Contents)
    → (t.message.key == q) ≡ false
    → (spec_section p h t f).1 q ≡ f q
section_away q start inserting t f e = ground (arith, e)
section_away q start updating t f e = ground (arith, e)
section_away q start getting t f e = ground (arith, e)
section_away q start deleting t f e = ground (arith, e)
section_away q checked h t f e = ground (arith, e)
section_away q done h t f e = refl

step_away :
    (q i : ℕ) (ts : List Thread) (f : Contents)
    → AllAway q ts
    → AllAway q (spec_step i ts f).0 × ((spec_step i ts f).1 q ≡ f q)
step_away q i [] f away = (tt, refl)
step_away q zero (t ∷ ts) f (here, later) = (
  (ap (λ key. key == q) (section_key t.phase t.handler t f) ∙ here, later),
  section_away q t.phase t.handler t f here,
)
step_away q (suc i) (t ∷ ts) f (here, later) =
    let (away, same) = step_away q i ts f later in ((here, away), same)

run_away :
    (q : ℕ) (is : List ℕ) (ts : List Thread) (f : Contents)
    → AllAway q ts
    → AllAway q (spec_interleave is ts f).0 × ((spec_interleave is ts f).1 q ≡ f q)
run_away q [] ts f away = (away, refl)
run_away q (i ∷ is) ts f away =
    let (away', same) = step_away q i ts f away in
    let (away'', same') = run_away q is (spec_step i ts f).0 (spec_step i ts f).1 away' in
    (away'', same' ∙ same)

module _ ⦃hashing : Hashing⦄ {others : ℕ} {k : Kernel} {bs : List Chain}
    (valid : IsValid others k bs) (gaps : Gaps) (ts : List Thread) (q : ℕ)
    (away : AllAway q ts) where
  reached_away :
      (b : ℕ)
      → AllAway q (reached gaps b ts k).0 × (contents (reached gaps b ts k).1 q ≡ contents k q)
  unfolding reached
  reached_away zero = (away, refl)
  reached_away (suc b) =
      let s = reached gaps b ts k in
      let (away', same) = reached_away b in
      let a = interleave-Agrees (gaps b) s.0 (reached-IsTable valid gaps ts b).valid in
      let (away'', same') = run_away q (gaps b) s.0 (contents s.1) away' in
      (subst (AllAway q) (sym a.threads) away'', a.reads q ∙ same' ∙ same)

  -- From a valid table, with threads in the handlers of insert, update, get and delete that run in
  -- front of every bucket, none of which works on a key: if `kv_hash_snapshot`, with a limit above
  -- 0 into an array of at least that many messages, has a message of the key, it holds the value
  -- that the key had at the start, cut to 63 bytes; and if the snapshot does not reach its limit,
  -- it has such a message exactly if the key was there.
  pub snapshot_untouched :
      (entries : List KvMessage) (max_entries out_count : ℕ)
      → 0 < max_entries
      → max_entries ≤ length entries
      → let r = kv_hash_snapshot_among gaps entries max_entries out_count ts k in
        ((v : List ℕ) → find_message q (take r.2 r.1) ≡ some v → cut (contents k q) ≡ some v)
        × (r.2 < max_entries → find_message q (take r.2 r.1) ≡ cut (contents k q))
  snapshot_untouched entries max_entries out_count h room =
      let w = snapshot-Written valid gaps ts entries max_entries out_count h room in
      let home = hashing.hash_min q k.table.bits in
      let same = (reached_away (suc home)).1 in
      (
        λ v e. ap cut (sym same) ∙ w.sound q v e,
        λ less. w.complete q (omega (arith, less, w.number)) ∙ ap cut same,
      )
