-- ===== src/Hash/Locks/Invariant.antt =====
-- Every step of a thread in the operations of kernel/kv_hash.c keeps the threads safe, and so
-- behind one lock is one thread at most.
use kvstore_lkm.Prelude.{
  ℕ, ◌≡◌, refl, sym, ap, ◌∙◌, inl, inr, true, false, Bool-cases, Option, none, some, List, [], ◌∷◌,
  arith, ◌==◌, length-set, set, get_or-set,
}
use mathlib.Core.Option.{some_inj}
use mathlib.Core.Bool.{false≢true}
use kvstore_lkm.Hash.Chain.{Chain}
use kvstore_lkm.Hash.Locks.{
  section_of, Stage, waiting, locked, walked, written, left, Answer, Caller, Machine, holder,
  chain_in, taken, step_at, caller_at, moved, one_move, moves,
}
use kvstore_lkm.Hash.Locks.Safe.{
  get_or-elsewhere, is_inside, chain_walked, IsSafe, Inv, Keeps, Keeps-Inv, stays,
}

module _ {ws : List Caller} {m : Machine} (inv : Inv ws m) (i : ℕ) (w : Caller)
    (here : caller_at i ws ≡ some w) where
  -- The stages, one by one.
  -- The lock of the thread's bucket is written.
  module _ (v : Option ℕ) where
    abbrev relocked : Machine
    relocked = record m { locks = set m.locks w.bucket v }

    lock_here : holder relocked w.bucket ≡ v
    lock_here =
        let self : (w.bucket == w.bucket) ≡ true = ground arith in
        get_or-set m.locks w.bucket w.bucket v none (inv.safe i w here).in_table ∙ rw self refl

    lock_at : (b : ℕ) → (w.bucket == b) ≡ true → holder relocked b ≡ v
    lock_at b same =
        let key : w.bucket ≡ b = ground (arith, same) in ap (holder relocked) (sym key) ∙ lock_here

    lock_else : (b : ℕ) → (w.bucket == b) ≡ false → holder relocked b ≡ holder m b
    lock_else b different = get_or-elsewhere m.locks w.bucket b v none different

    -- The others keep theirs, if nobody else holds this one.
    relocked_frame :
        ((j : ℕ) → holder m w.bucket ≡ some j → (i == j) ≡ true)
        → (j : ℕ) (u : Caller) → (i == j) ≡ false
        → IsSafe m j u
        → IsSafe relocked j u
    relocked_frame free j u different safe = record {
      owns = λ inside. elim (Bool-cases (w.bucket == u.bucket)) [
        | inl same ↦
            let key : w.bucket ≡ u.bucket = ground (arith, same) in
            let it_is = free j (ap (holder m) key ∙ safe.owns inside) in
            absurd (false≢true (sym different ∙ it_is))
        | inr apart ↦ lock_else u.bucket apart ∙ safe.owns inside
      ];
      fresh = safe.fresh;
      in_table = omega (arith, safe.in_table, length-set m.locks w.bucket v);
    }

  takes :
      w.stage ≡ waiting
      → holder m w.bucket ≡ none
      → Keeps i w (record w { stage = locked }) m (relocked (some i))
  takes at_stage free = record {
    safe = record {
      owns = λ inside. lock_here (some i);
      fresh = λ c e. cc;
      in_table = omega (arith, (inv.safe i w here).in_table, length-set m.locks w.bucket (some i));
    };
    frame = relocked_frame (some i) (λ j h. cc);
    others = λ b j different h. elim (Bool-cases (w.bucket == b)) [
      | inl same ↦
          let it_is = some_inj.0 (sym (lock_at (some i) b same) ∙ h) in
          ground (arith, it_is, different)
      | inr apart ↦ sym (lock_else (some i) b apart) ∙ h
    ];
    mine = λ b h. elim (Bool-cases (w.bucket == b)) [
      | inl same ↦ (ground (arith, same), refl)
      | inr apart ↦ (((stays inv i w here).mine b (sym (lock_else (some i) b apart) ∙ h)).0, refl)
    ];
  }

  owned : is_inside w.stage ≡ true → holder m w.bucket ≡ some i
  owned = (inv.safe i w here).owns

  walks : w.stage ≡ locked → Keeps i w (record w { stage = walked (chain_in m w.bucket) }) m m
  walks at_stage = record {
    safe = record {
      owns = λ inside. owned (ap is_inside at_stage);
      fresh = λ c e. sym (ap chain_walked e);
      in_table = (inv.safe i w here).in_table;
    };
    frame = λ j u different safe. safe;
    others = λ b j different h. h;
    mine = λ b h. (((stays inv i w here).mine b h).0, refl);
  }

  writes :
      (c c' : Chain) (answer : Answer)
      → w.stage ≡ walked c
      → Keeps i w
          (record w { stage = written answer })
          m
          (record m { chains = set m.chains w.bucket c' })
  writes c c' answer at_stage =
      let ours = owned (ap is_inside at_stage) in
      record {
        safe = record {
          owns = λ inside. ours;
          fresh = λ d e. cc;
          in_table = (inv.safe i w here).in_table;
        };
        frame = λ j u different safe. record {
          owns = safe.owns;
          fresh = λ d e. elim (Bool-cases (w.bucket == u.bucket)) [
            | inl same ↦
                let key : w.bucket ≡ u.bucket = ground (arith, same) in
                let theirs = ap (holder m) key ∙ safe.owns (ap is_inside e) in
                let it_is = some_inj.0 (sym ours ∙ theirs) in ground (arith, it_is, different)
            | inr apart ↦
                safe.fresh d e ∙ sym (get_or-elsewhere m.chains w.bucket u.bucket c' [] apart)
          ];
          in_table = safe.in_table;
        };
        others = λ b j different h. h;
        mine = λ b h. (((stays inv i w here).mine b h).0, refl);
      }

  leaves :
      (answer : Answer)
      → w.stage ≡ written answer
      → Keeps i w (record w { stage = left answer }) m (relocked none)
  leaves answer at_stage =
      let ours = owned (ap is_inside at_stage) in
      record {
        safe = record {
          owns = λ inside. absurd (false≢true inside);
          fresh = λ d e. cc;
          in_table = omega (arith, (inv.safe i w here).in_table, length-set m.locks w.bucket none);
        };
        frame =
            relocked_frame none
              (λ j h. let it_is = some_inj.0 (sym ours ∙ h) in ground (arith, it_is));
        others = λ b j different h. elim (Bool-cases (w.bucket == b)) [
          | inl same ↦ let nobody = sym (lock_at none b same) ∙ h in cc
          | inr apart ↦ sym (lock_else none b apart) ∙ h
        ];
        mine = λ b h. elim (Bool-cases (w.bucket == b)) [
          | inl same ↦ let nobody = sym (lock_at none b same) ∙ h in cc
          | inr apart ↦
              let bucket = ((stays inv i w here).mine b (sym (lock_else none b apart) ∙ h)).0 in
              ground (arith, bucket, apart)
        ];
      }

  pub taken-Keeps :
      (o : Option ℕ)
      → w.stage ≡ waiting
      → holder m w.bucket ≡ o
      → Keeps i w (taken i w m o).0 m (taken i w m o).1
  taken-Keeps none at_stage free = takes at_stage free
  taken-Keeps (some j) at_stage busy = stays inv i w here

  pub step-Keeps : (s : Stage) → w.stage ≡ s → Keeps i w (step_at s i w m).0 m (step_at s i w m).1
  unfolding step_at
  step-Keeps waiting e = taken-Keeps (holder m w.bucket) e refl
  step-Keeps locked e = walks e
  step-Keeps (walked c) e = writes c (section_of w.request c).1 (section_of w.request c).0 e
  step-Keeps (written answer) e = leaves answer e
  step-Keeps (left answer) e = stays inv i w here

moved-Inv :
    {ws : List Caller} {m : Machine} (i : ℕ) (o : Option Caller)
    → Inv ws m
    → caller_at i ws ≡ o
    → Inv (moved i ws m o).0 (moved i ws m o).1
moved-Inv i none inv e = inv
moved-Inv {ws} {m} i (some w) inv e =
    Keeps-Inv inv i w e (step_at w.stage i w m).0 (step_at w.stage i w m).1
      (step-Keeps inv i w e w.stage refl)

-- A step keeps the invariant.
pub one_move-Inv :
    {ws : List Caller} {m : Machine} (i : ℕ)
    → Inv ws m
    → Inv (one_move i ws m).0 (one_move i ws m).1
unfolding one_move
one_move-Inv {ws} i inv = moved-Inv i (caller_at i ws) inv refl

-- Behind one lock is one thread at most.
pub one_inside :
    (is : List ℕ) {ws : List Caller} {m : Machine}
    → Inv ws m
    → (i j : ℕ) (u v : Caller) → caller_at i (moves is ws m).0 ≡ some u
    → caller_at j (moves is ws m).0 ≡ some v
    → u.bucket ≡ v.bucket
    → is_inside u.stage ≡ true
    → is_inside v.stage ≡ true
    → i ≡ j
unfolding moves
one_inside [] {ws} {m} inv i j u v at_i at_j same inside inside' =
    some_inj.0 (
      sym ((inv.safe i u at_i).owns inside) ∙ ap (holder m) same ∙ (inv.safe j v at_j).owns inside')
one_inside (n ∷ is) inv i j u v at_i at_j same inside inside' =
    one_inside is (one_move-Inv n inv) i j u v at_i at_j same inside inside'
