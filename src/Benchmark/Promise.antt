-- ===== src/Benchmark/Promise.antt =====
-- The four operations of benchmark/benchmark.cpp over a peer that keeps the promise of the daemon.
use kvstore_lkm.Prelude.{
  ℕ, ◌≡◌, ◌≤◌, ◌<◌, ◌^◌, refl, none, some, List, [], ◌∷◌, ◌++◌, arith, Option-cases, inl, inr,
  take_all, length, length-append, codes, pos,
}
use mathlib.Core.Path.{subst}
use kvstore_lkm.Text.{NoNul-append, NoNul, decimal}
use kvstore_lkm.Message.{Cmd, kv_insert, kv_delete, kv_get, kv_update}
use kvstore_lkm.Hash.View.{Contents, update}
use kvstore_lkm.Daemon.Words.Read.{NoNewline}
use kvstore_lkm.Daemon.Command.Dispatch.{name_of, text_of, IsKeyed, NeedsNoValue}
use kvstore_lkm.Daemon.Protocol.{protocol, Order, written, promised, IsOrder}
use kvstore_lkm.Benchmark.{Peer, in_buffer}
use kvstore_lkm.Benchmark
use kvstore_lkm.Daemon.Protocol.Session.{decimal-NoNul}
use kvstore_lkm.Benchmark.Texts.{length-decimal, NoNewline-append, decimal-NoNewline}

-- A peer that answers every command on a key as a promise says for what it shows, and then shows
-- what the promise says.
pub record KeepsPromise {S A : Type 0} (peer : Peer S) (promise : Order → A → List ℕ × A)
    (shows : A → S → Type 0) : Type 0 where
  pub answers :
      (o : Order) (a : A) (s : S)
      → IsOrder o
      → length (written o) ≤ 1023
      → shows a s
      → ((peer.exchange (written o) s).0 ≡ some (promise o a).0)
        × shows (promise o a).1 (peer.exchange (written o) s).1

-- A value that fits a message: at least one byte, no NUL, no newline.
pub record IsValue (text : List ℕ) : Type 0 where
  pub whole : IsKeyed kv_insert text
  pub no_nul : NoNul text
  pub no_newline : NoNewline text
  pub fits : length text ≤ 63

abbrev pub bare : Cmd → ℕ → Order
bare cmd n = record { cmd = cmd; key = n; value = none }

abbrev pub valued : Cmd → ℕ → List ℕ → Order
valued cmd n text = record { cmd = cmd; key = n; value = some text }

IsKeyed-update : (text : List ℕ) → IsKeyed kv_insert text → IsKeyed kv_update text
IsKeyed-update [] h = h
IsKeyed-update (c ∷ s) h = tt

pub length-valued :
    (name : List ℕ) (n : ℕ) (text : List ℕ)
    → length name ≤ 9
    → length text ≤ 63
    → length (text_of name (decimal n) text) ≤ 1023
length-valued name n text h fits = omega (
  arith,
  length-append name (32 ∷ (decimal n ++ (32 ∷ text))),
  length-append (decimal n) (32 ∷ text),
  length-decimal n,
  h,
  fits,
)

module _ {S A : Type 0} {peer : Peer S} {promise : Order → A → List ℕ × A} {shows : A → S → Type 0}
    (keeps : KeepsPromise peer promise shows) (n : ℕ) (in_range : n < 2 ^ 64) (a : A) (s : S)
    (shown : shows a s) where
  get_run :
      (text : List ℕ)
      → (peer.exchange (codes "KV_GET " ++ decimal n) s).0 ≡ some text
      → Benchmark.kv_get peer (decimal n) s
        ≡ (in_buffer 1023 text, (peer.exchange (codes "KV_GET " ++ decimal n) s).1)
  get_run text e = unfold Benchmark.kv_get in rw (e, Benchmark.kv_get)

  bare-IsOrder : (cmd : Cmd) → NeedsNoValue cmd → IsOrder (bare cmd n)
  bare-IsOrder cmd need = record { in_range = in_range; has_value = need; text = tt }

  -- What stands in the buffer is the promised answer.
  pub get_answer :
      ((Benchmark.kv_get peer (decimal n) s).0 ≡ in_buffer 1023 (promise (bare kv_get n) a).0)
      × shows (promise (bare kv_get n) a).1 (Benchmark.kv_get peer (decimal n) s).1
  get_answer =
      let fits : length (written (bare kv_get n)) ≤ 1023 = omega (arith, length-decimal n) in
      let answer = keeps.answers (bare kv_get n) a s (bare-IsOrder kv_get tt) fits shown in
      rw (get_run _ (answer.0)) (refl, answer.1)

  -- A response comes back.
  pub delete_answer :
      ((Benchmark.kv_delete peer (decimal n) s).0 ≡ pos 0)
      × shows (promise (bare kv_delete n) a).1 (Benchmark.kv_delete peer (decimal n) s).1
  delete_answer =
      let fits : length (written (bare kv_delete n)) ≤ 1023 = omega (arith, length-decimal n) in
      let answer = keeps.answers (bare kv_delete n) a s (bare-IsOrder kv_delete tt) fits shown in
      unfold Benchmark.kv_delete in (rw (answer.0) refl, answer.1)

  module _ (text : List ℕ) (value : IsValue text) where
    valued-IsOrder : (cmd : Cmd) → IsKeyed cmd text → IsOrder (valued cmd n text)
    valued-IsOrder cmd need = record {
      in_range = in_range;
      has_value = (need, value.no_newline);
      text = value.no_nul;
    }

    pub insert_answer :
        ((Benchmark.kv_insert peer (decimal n) text s).0 ≡ pos 0)
        × shows
            (promise (valued kv_insert n text) a).1
            (Benchmark.kv_insert peer (decimal n) text s).1
    insert_answer =
        let fits = length-valued (name_of kv_insert) n text (omega arith) value.fits in
        let answer =
          keeps.answers (valued kv_insert n text) a s (valued-IsOrder kv_insert value.whole) fits
            shown in
        unfold Benchmark.kv_insert in (rw (answer.0) refl, answer.1)

    pub update_answer :
        ((Benchmark.kv_update peer (decimal n) text s).0 ≡ pos 0)
        × shows
            (promise (valued kv_update n text) a).1
            (Benchmark.kv_update peer (decimal n) text s).1
    update_answer =
        let fits = length-valued (name_of kv_update) n text (omega arith) value.fits in
        let answer =
          keeps.answers (valued kv_update n text) a s
            (valued-IsOrder kv_update (IsKeyed-update text value.whole)) fits shown in
        unfold Benchmark.kv_update in (rw (answer.0) refl, answer.1)

get_keeps : (n : ℕ) (text : List ℕ) (f : Contents) → (protocol kv_get n text f).1 ≡ f
get_keeps n text f = elim (Option-cases (f n)) [
  | inl e ↦ rw (e, protocol) refl
  | inr (v, e) ↦ rw (e, protocol) refl
]

pub absent_inserts :
    (n : ℕ) (text : List ℕ) (f : Contents)
    → f n ≡ none
    → (protocol kv_insert n text f).1 ≡ update f n (some text)
absent_inserts n text f e = rw (e, protocol) refl

pub found_deletes :
    (n : ℕ) (text v : List ℕ) (f : Contents)
    → f n ≡ some v
    → (protocol kv_delete n text f).1 ≡ update f n none
found_deletes n text v f e = rw (e, protocol) refl

-- The same for the promise of the daemon.
module _ {S : Type 0} {peer : Peer S} {shows : Contents → S → Type 0}
    (keeps : KeepsPromise peer promised shows) (n : ℕ) (in_range : n < 2 ^ 64) (f : Contents)
    (s : S) (shown : shows f s) where
  pub kv_get_lem :
      ((Benchmark.kv_get peer (decimal n) s).0 ≡ in_buffer 1023 (protocol kv_get n [] f).0)
      × shows f (Benchmark.kv_get peer (decimal n) s).1
  kv_get_lem =
      let answer = get_answer keeps n in_range f s shown in
      (answer.0, rw (get_keeps n _ f) at (answer.1))

  pub kv_delete_lem :
      ((Benchmark.kv_delete peer (decimal n) s).0 ≡ pos 0)
      × shows (protocol kv_delete n [] f).1 (Benchmark.kv_delete peer (decimal n) s).1
  kv_delete_lem = delete_answer keeps n in_range f s shown

  pub kv_insert_lem :
      (text : List ℕ)
      → IsValue text
      → ((Benchmark.kv_insert peer (decimal n) text s).0 ≡ pos 0)
        × shows (protocol kv_insert n text f).1 (Benchmark.kv_insert peer (decimal n) text s).1
  kv_insert_lem text value =
      let answer = insert_answer keeps n in_range f s shown text value in
      let s' = (Benchmark.kv_insert peer (decimal n) text s).1 in
      (
        answer.0,
        subst (λ kept. shows (protocol kv_insert n kept f).1 s') (take_all 63 text value.fits)
            (answer.1),
      )

  pub kv_update_lem :
      (text : List ℕ)
      → IsValue text
      → ((Benchmark.kv_update peer (decimal n) text s).0 ≡ pos 0)
        × shows (protocol kv_update n text f).1 (Benchmark.kv_update peer (decimal n) text s).1
  kv_update_lem text value =
      let answer = update_answer keeps n in_range f s shown text value in
      let s' = (Benchmark.kv_update peer (decimal n) text s).1 in
      (
        answer.0,
        subst (λ kept. shows (protocol kv_update n kept f).1 s') (take_all 63 text value.fits)
            (answer.1),
      )

pub found_updates :
    (n : ℕ) (text v : List ℕ) (f : Contents)
    → f n ≡ some v
    → (protocol kv_update n text f).1 ≡ update f n (some text)
found_updates n text v f e = rw (e, protocol) refl

-- A short text with a number behind it is a value.
pub numbered-IsValue :
    (c : ℕ) (text : List ℕ) (n : ℕ)
    → NoNul (c ∷ text)
    → NoNewline (c ∷ text)
    → length (c ∷ text) ≤ 40
    → IsValue (c ∷ text ++ decimal n)
numbered-IsValue c text n no_nul no_newline short = record {
  whole = tt;
  no_nul = NoNul-append (c ∷ text) (decimal n) no_nul (decimal-NoNul n);
  no_newline = NoNewline-append (c ∷ text) (decimal n) no_newline (decimal-NoNewline n);
  fits = omega (arith, short, length-decimal n, length-append (c ∷ text) (decimal n));
}
