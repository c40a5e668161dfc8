-- ===== src/Device/Interleave/Promise.antt =====
-- The promise of the handlers of kernel/kvlkm.c on several threads: each section is an atomic step on
-- a map from keys to values.
use kvstore_lkm.Prelude.{ℕ, zero, suc, none, some, List, [], ◌∷◌, ◌++◌, codes}
use kvstore_lkm.Text.{decimal}
use kvstore_lkm.Message.{KvMessage}
use kvstore_lkm.Hash.View.{Contents}
use kvstore_lkm.Device.Spec.{seen, refused, spec_get, spec_delete, spec_write}
use kvstore_lkm.Device.Interleave.{
  Phase, start, checked, done, Handler, inserting, updating, getting, deleting, Thread, finished,
  failure_of,
}

abbrev pub spec_ended : Thread → KvMessage × Contents → Thread × Contents
spec_ended t (msg, f) = (finished t msg, f)

-- What a section makes of the map.
abbrev pub spec_section : Phase → Handler → Thread → Contents → Thread × Contents
spec_section start inserting t f = elim (seen (f t.message.key)) [
  | some v ↦ (finished t (refused t.message (codes "Key exists. Use update.\n")), f)
  | none ↦ (record t { phase = checked }, f)
]
spec_section start updating t f = elim (seen (f t.message.key)) [
  | some v ↦ (record t { phase = checked }, f)
  | none ↦ (
    finished t (
        refused t.message
          (codes "Cannot update non-existent key: " ++ decimal t.message.key ++ codes "\n")),
    f,
  )
]
spec_section start getting t f = spec_ended t (spec_get t.message f)
spec_section start deleting t f = spec_ended t (spec_delete t.message f)
spec_section checked handler t f =
    spec_ended t (spec_write t.env t.message (failure_of t.handler) f)
spec_section done handler t f = (t, f)

abbrev pub spec_step : ℕ → List Thread → Contents → List Thread × Contents
spec_step i [] f = ([], f)
spec_step zero (t ∷ ts) f = let (t', g) = spec_section t.phase t.handler t f in (t' ∷ ts, g)
spec_step (suc i) (t ∷ ts) f = let (ts', g) = spec_step i ts f in (t ∷ ts', g)

abbrev pub spec_interleave : List ℕ → List Thread → Contents → List Thread × Contents
spec_interleave [] ts f = (ts, f)
spec_interleave (i ∷ is) ts f = let (ts', g) = spec_step i ts f in spec_interleave is ts' g
