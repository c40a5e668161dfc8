-- ===== src/Device/Walk/Sees.antt =====
-- What a count and a snapshot of kernel/kv_hash.c find while other threads change the table.
use kvstore_lkm.Prelude.{
  ℕ, zero, suc, ◌+◌, ◌^◌, ◌≤◌, ◌<◌, ◌≡◌, ◌≢◌, refl, sym, ap, ◌∙◌, inl, inr, Bool-cases, List, [],
  arith, get_or, flatten, ltb,
}
use mathlib.Core.Path.{subst}
use kvstore_lkm.Hash.Chain.{Chain, find, occurs, AllStrings}
use kvstore_lkm.Hash.Table.{Hashing, Kernel, IsValid}
use kvstore_lkm.Hash.View.{contents, contents-IsValid}
use kvstore_lkm.Hash.Export.{only_at, AllStrings-flatten}
use kvstore_lkm.Device.Interleave.{Thread}
use kvstore_lkm.Device.Interleave.Atomic.{interleave-Agrees}
use kvstore_lkm.Device.Interleave.Bits.{interleave_bits}
use kvstore_lkm.Device.Walk.{Gaps, chain_of, chain_at}
use kvstore_lkm.Device.Walk.Moments.{reached, moment, visited, visited_from, visited_beyond}

module _ ⦃hashing : Hashing⦄ where
  -- A valid table with so many bits.
  pub record IsTable (others bits : ℕ) (k : Kernel) : Type 0 where
    pub chains : List Chain
    pub valid : IsValid others k chains
    pub same_bits : k.table.bits ≡ bits

  -- The entries that a walk has found: each key once at most, with the value that it had when the
  -- walk was at its bucket.
  pub record Sees (gaps : Gaps) (ts : List Thread) (k : Kernel) (found : Chain) : Type 0 where
    pub reads :
        (q : ℕ) → find q found ≡ contents (moment gaps (hashing.hash_min q k.table.bits) ts k) q
    pub once : (q : ℕ) → occurs q found ≤ 1
    pub strings : AllStrings found

  module _ {others : ℕ} {k : Kernel} {bs : List Chain} (valid : IsValid others k bs) (gaps : Gaps)
      (ts : List Thread) where
    pub reached-IsTable : (b : ℕ) → IsTable others k.table.bits (reached gaps b ts k).1
    unfolding reached
    reached-IsTable zero = record { chains = bs; valid = valid; same_bits = refl }
    reached-IsTable (suc b) =
        let before = reached-IsTable b in
        let s = reached gaps b ts k in
        let a = interleave-Agrees (gaps b) s.0 before.valid in
        record {
          chains = a.chains;
          valid = a.valid;
          same_bits = interleave_bits (gaps b) s.0 s.1 ∙ before.same_bits;
        }

    abbrev pub found_chains : List Chain
    found_chains = visited gaps (2 ^ k.table.bits) 0 ts k

    -- The chains that it finds, by bucket.
    found_here :
        (i : ℕ)
        → i < 2 ^ k.table.bits
        → get_or found_chains i [] ≡ get_or (reached-IsTable (suc i)).chains i []
    unfolding reached
    found_here i h =
        let e : 0 + i ≡ i = omega arith in
        visited_from gaps (2 ^ k.table.bits) 0 i ts k h
        ∙ ap (λ j. chain_at j (moment gaps j ts k)) e
        ∙ ap (chain_of i) (reached-IsTable (suc i)).valid.ready

    found_beyond : (i : ℕ) → 2 ^ k.table.bits ≤ i → get_or found_chains i [] ≡ []
    found_beyond i h = visited_beyond gaps (2 ^ k.table.bits) 0 i ts k h

    placed_there :
        (q i : ℕ)
        → (occurs q (get_or (reached-IsTable (suc i)).chains i []) ≤ 1)
          × (hashing.hash_min q k.table.bits ≢ i
              → occurs q (get_or (reached-IsTable (suc i)).chains i []) ≡ 0)
    placed_there q i =
        let m = reached-IsTable (suc i) in
        subst
          (λ b.
            (occurs q (get_or m.chains i []) ≤ 1)
            × (hashing.hash_min q b ≢ i → occurs q (get_or m.chains i []) ≡ 0))
          m.same_bits (m.valid.placed q i)

    found_elsewhere :
        (q i : ℕ) → hashing.hash_min q k.table.bits ≢ i → occurs q (get_or found_chains i []) ≡ 0
    unfolding occurs
    found_elsewhere q i n = elim (Bool-cases (ltb i (2 ^ k.table.bits))) [
      | inl inside ↦ rw (found_here i (ground (arith, inside))) ((placed_there q i).1 n)
      | inr beyond ↦ rw (found_beyond i (ground (arith, beyond))) refl
    ]

    strings_there : (i : ℕ) → AllStrings (get_or found_chains i [])
    strings_there i = elim (Bool-cases (ltb i (2 ^ k.table.bits))) [
      | inl inside ↦
          rw (found_here i (ground (arith, inside))) ((reached-IsTable (suc i)).valid.strings i)
      | inr beyond ↦ rw (found_beyond i (ground (arith, beyond))) tt
    ]

    pub found-Sees : Sees gaps ts k (flatten found_chains)
    found-Sees = record {
      reads = λ q.
          let home = hashing.hash_min q k.table.bits in
          let inside = hashing.hash_min-lt q k.table.bits valid.some_bits valid.few_bits in
          let m = reached-IsTable (suc home) in
          let at_home : contents (moment gaps home ts k) q ≡ find q (get_or m.chains home []) =
            contents-IsValid m.valid q
            ∙ ap (λ b. find q (get_or m.chains (hashing.hash_min q b) [])) m.same_bits in
          (only_at q found_chains home (λ i n. found_elsewhere q i (λ e. n (sym e)))).0
          ∙ ap (find q) (found_here home inside)
          ∙ sym at_home;
      once = λ q.
          let home = hashing.hash_min q k.table.bits in
          let inside = hashing.hash_min-lt q k.table.bits valid.some_bits valid.few_bits in
          let there =
            (only_at q found_chains home (λ i n. found_elsewhere q i (λ e. n (sym e)))).1
            ∙ ap (occurs q) (found_here home inside) in
          rw there (placed_there q home).0;
      strings = AllStrings-flatten found_chains strings_there;
    }
