-- ===== src/Hash/Locks/Safe.antt =====
-- What holds at every step of the threads in the operations of kernel/kv_hash.c: who is behind a
-- lock holds it, and the chain that it has walked is still the chain of the bucket.
use kvstore_lkm.Prelude.{
  ℕ, zero, suc, ◌<◌, ◌≡◌, refl, sym, ap, ◌∙◌, inl, inr, Bool, true, false, Bool-cases, some, List,
  [], ◌∷◌, arith, ◌==◌, if◌then◌else◌, length, get_or, set,
}
use mathlib.Core.Path.{subst}
use mathlib.Core.Option.{some_inj}
use kvstore_lkm.Hash.Chain.{Chain}
use kvstore_lkm.Hash.Locks.{
  Stage, waiting, locked, walked, written, left, Caller, Machine, holder, chain_in, caller_at,
}

caller_at-set :
    (ws : List Caller) (i j : ℕ) (w w₀ : Caller)
    → caller_at i ws ≡ some w₀
    → caller_at j (set ws i w) ≡ (if i == j then some w else caller_at j ws)
unfolding caller_at set
caller_at-set [] i j w w₀ h = ground (arith, h)
caller_at-set (x ∷ ws) zero zero w w₀ h = refl
caller_at-set (x ∷ ws) zero (suc j) w w₀ h = ground arith
caller_at-set (x ∷ ws) (suc i) zero w w₀ h = ground arith
caller_at-set (x ∷ ws) (suc i) (suc j) w w₀ h = ground (arith, caller_at-set ws i j w w₀ h)

pub get_or-elsewhere :
    {A : Type 0} (xs : List A) (i j : ℕ) (v d : A)
    → (i == j) ≡ false
    → get_or (set xs i v) j d ≡ get_or xs j d
unfolding get_or set
get_or-elsewhere [] i j v d h = refl
get_or-elsewhere (x ∷ xs) zero zero v d h = ground (arith, h)
get_or-elsewhere (x ∷ xs) zero (suc j) v d h = refl
get_or-elsewhere (x ∷ xs) (suc i) zero v d h = refl
get_or-elsewhere (x ∷ xs) (suc i) (suc j) v d h = get_or-elsewhere xs i j v d (ground (arith, h))

-- Between taking the lock and the release.
abbrev pub is_inside : Stage → Bool
is_inside waiting = false
is_inside locked = true
is_inside (walked c) = true
is_inside (written answer) = true
is_inside (left answer) = false

abbrev pub chain_walked : Stage → Chain
chain_walked (walked c) = c
chain_walked _ = []

-- The thread with this number, at this state of the machine.
pub record IsSafe (m : Machine) (i : ℕ) (w : Caller) : Type 0 where
  pub owns : is_inside w.stage ≡ true → holder m w.bucket ≡ some i
  pub fresh : (c : Chain) → w.stage ≡ walked c → c ≡ chain_in m w.bucket
  pub in_table : w.bucket < length m.locks

-- Every thread is safe, and a lock that is held is held by a thread that is behind it.
pub record Inv (ws : List Caller) (m : Machine) : Type 0 where
  pub safe : (i : ℕ) (w : Caller) → caller_at i ws ≡ some w → IsSafe m i w
  pub held :
      (b i : ℕ)
      → holder m b ≡ some i
      → (w : Caller) × (caller_at i ws ≡ some w) × (w.bucket ≡ b) × (is_inside w.stage ≡ true)

-- A step of one thread: it is safe at the end of it, the others stay safe, and of the locks only
-- the one of its bucket changes, to the thread or to nobody.
pub record Keeps (i : ℕ) (w w' : Caller) (m m' : Machine) : Type 0 where
  pub safe : IsSafe m' i w'
  pub frame : (j : ℕ) (u : Caller) → (i == j) ≡ false → IsSafe m j u → IsSafe m' j u
  pub others : (b j : ℕ) → (i == j) ≡ false → holder m' b ≡ some j → holder m b ≡ some j
  pub mine : (b : ℕ) → holder m' b ≡ some i → (w'.bucket ≡ b) × (is_inside w'.stage ≡ true)

module _ {ws : List Caller} {m : Machine} (inv : Inv ws m) (i : ℕ) (w : Caller)
    (here : caller_at i ws ≡ some w) where
  at_self : (w' : Caller) → caller_at i (set ws i w') ≡ some w'
  at_self w' =
      let same : (i == i) ≡ true = ground arith in caller_at-set ws i i w' w here ∙ rw same refl

  at_other : (j : ℕ) (w' : Caller) → (i == j) ≡ false → caller_at j (set ws i w') ≡ caller_at j ws
  at_other j w' different = caller_at-set ws i j w' w here ∙ rw different refl

  pub Keeps-Inv : (w' : Caller) (m' : Machine) → Keeps i w w' m m' → Inv (set ws i w') m'
  Keeps-Inv w' m' k = record {
    safe = λ j u h. elim (Bool-cases (i == j)) [
      | inl same ↦
          let key : i ≡ j = ground (arith, same) in
          let u_is : w' ≡ u =
            some_inj.0 (sym (at_self w') ∙ ap (λ n. caller_at n (set ws i w')) key ∙ h) in
          subst (λ n. IsSafe m' n u) key (subst (λ x. IsSafe m' i x) u_is k.safe)
      | inr different ↦ k.frame j u different (inv.safe j u (sym (at_other j w' different) ∙ h))
    ];
    held = λ b j h. elim (Bool-cases (i == j)) [
      | inl same ↦
          let key : i ≡ j = ground (arith, same) in
          let (bucket, inside) = k.mine b (h ∙ ap some (sym key)) in
          (w', ap (λ n. caller_at n (set ws i w')) (sym key) ∙ at_self w', bucket, inside)
      | inr different ↦
          let (u, there, bucket, inside) = inv.held b j (k.others b j different h) in
          (u, at_other j w' different ∙ there, bucket, inside)
    ];
  }

  pub stays : Keeps i w w m m
  stays = record {
    safe = inv.safe i w here;
    frame = λ j u different safe. safe;
    others = λ b j different h. h;
    mine = λ b h.
        let (u, there, bucket, inside) = inv.held b i h in
        let u_is : u ≡ w = some_inj.0 (sym there ∙ here) in
        (
          ap (λ (x : Caller). x.bucket) (sym u_is) ∙ bucket,
          ap (λ (x : Caller). is_inside x.stage) (sym u_is) ∙ inside,
        );
  }
