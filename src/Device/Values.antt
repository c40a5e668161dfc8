-- ===== src/Device/Values.antt =====
-- Which values the device of kernel/kvlkm.c stores: those of messages with a NUL in their array, and
-- those of messages without.
use kvstore_lkm.Prelude.{
  ℕ, ◌≡◌, ◌<◌, refl, ◌∙◌, none, some, List, [], ◌∷◌, ◌++◌, arith, codes, Option-cases, inl, inr,
  sym, length,
}
use kvstore_lkm.Text.{c_string, c_string-append}
use kvstore_lkm.Message.{
  Cmd, kv_insert, kv_delete, kv_get, kv_update, kv_snapshot, kv_count, other, KvMessage,
  max_value_len,
}
use kvstore_lkm.Hash.Chain.{Chain}
use kvstore_lkm.Hash.Table.{Hashing, Kernel, IsValid}
use kvstore_lkm.Hash.View.{Contents, contents, update}
use kvstore_lkm.Device.Handlers.{Env}
use kvstore_lkm.Device.Spec.{seen, spec_write}
use kvstore_lkm.Device.Refine.{spec_message, Request, spec_serve, serve, serve-refines}

-- A message whose string ends inside its array of 64 bytes.
pub record IsTerminated (msg : KvMessage) : Type 0 where
  pub size : length msg.value ≡ max_value_len
  pub ends : length (c_string msg.value) < max_value_len

abbrev pub AllTerminated : List Request → Type 0
AllTerminated [] = Unit
AllTerminated (r ∷ rs) = IsTerminated r.message × AllTerminated rs

-- Every stored value fits a message with its NUL.
abbrev pub IsShort : Contents → Type 0
IsShort f = (q : ℕ) (v : List ℕ) → f q ≡ some v → length v < max_value_len

pub stored-short :
    (msg : KvMessage) (beyond : List ℕ)
    → IsTerminated msg
    → length (c_string (msg.value ++ beyond)) < max_value_len
stored-short msg beyond t =
    rw (c_string-append msg.value beyond (omega (arith, t.size, t.ends))) t.ends

update-IsShort :
    (f : Contents) (key : ℕ) (v : List ℕ)
    → length v < max_value_len
    → IsShort f
    → IsShort (update f key (some v))
update-IsShort f key v h s q w e = ground (arith, s q w)

remove-IsShort : (f : Contents) (key : ℕ) → IsShort f → IsShort (update f key none)
remove-IsShort f key s q w e = ground (arith, s q w)

write-IsShort :
    (env : Env) (msg : KvMessage) (failure : List ℕ) (f : Contents)
    → IsTerminated msg
    → IsShort f
    → IsShort (spec_write env msg failure f).1
write-IsShort env msg failure f t s q w e =
    ground (arith, s q w, update-IsShort f msg.key _ (stored-short msg env.beyond t) s q w)

pub operation-IsShort :
    (env : Env) (cmd : Cmd) (arg : KvMessage) (f : Contents)
    → IsTerminated arg
    → IsShort f
    → IsShort (spec_message env cmd arg f).2
operation-IsShort env kv_insert arg f t s q w e =
    ground (arith, s q w, write-IsShort env arg (codes "Insert failed.\n") f t s q w)
operation-IsShort env kv_update arg f t s q w e =
    ground (arith, s q w, write-IsShort env arg (codes "Update failed.\n") f t s q w)
operation-IsShort env kv_get arg f t s q w e = ground (arith, s q w)
operation-IsShort env kv_delete arg f t s q w e =
    ground (arith, s q w, remove-IsShort f arg.key s q w)
operation-IsShort env kv_snapshot arg f t s q w e = ground (arith, s q w)
operation-IsShort env kv_count arg f t s q w e = ground (arith, s q w)
operation-IsShort env (other n) arg f t s q w e = ground (arith, s q w)

spec_serve-IsShort :
    (rs : List Request) (f : Contents) → AllTerminated rs → IsShort f → IsShort (spec_serve rs f).1
spec_serve-IsShort [] f t s = s
spec_serve-IsShort (r ∷ rs) f t s =
    spec_serve-IsShort rs _ t.1 (operation-IsShort r.env r.cmd r.message f t.0 s)

-- What fits is seen.
pub seen-IsShort : (f : Contents) → IsShort f → (q : ℕ) → seen (f q) ≡ f q
seen-IsShort f s q = elim (Option-cases (f q)) [
  | inl e ↦ rw e refl
  | inr (v, e) ↦ let fits = s q v e in rw e (ground arith)
]

module _ ⦃hashing : Hashing⦄ where
  -- From a valid table whose values are all shorter than 64 bytes, any run of calls whose messages
  -- all have a NUL in their array leaves values shorter than 64 bytes only, so that no stored key
  -- is answered as absent afterwards.
  pub serve-IsShort :
      {others : ℕ} (rs : List Request) {k : Kernel} {bs : List Chain}
      → IsValid others k bs
      → AllTerminated rs
      → IsShort (contents k)
      → IsShort (contents (serve rs k).1)
        × ((q : ℕ) → seen (contents (serve rs k).1 q) ≡ contents (serve rs k).1 q)
  serve-IsShort rs {k = k} valid t s =
      let run = serve-refines rs valid in
      let short : IsShort (contents (serve rs k).1) =
        λ q v e. spec_serve-IsShort rs (contents k) t s q v (sym (run.reads q) ∙ e) in
      (short, seen-IsShort (contents (serve rs k).1) short)
