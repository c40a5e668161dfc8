-- ===== src/Text/Decimal.antt =====
-- `%llu` and `std::to_string` of an unsigned 64-bit number.
use kvstore_lkm.Prelude.{
  ℕ, zero, suc, ◌+◌, ◌/◌, ◌%◌, ◌≤◌, List, [], ◌∷◌, arith, ◌==◌, if◌then◌else◌, length,
}

-- The digits of `n` in front of `acc`, at most `f` of them.
unfoldable pub digits_of : ℕ → ℕ → List ℕ → List ℕ
digits_of zero n acc = acc
digits_of (suc f) n acc =
    let rest = digits_of f (n / 10) ((48 + n % 10) ∷ acc) in
    if n / 10 == 0 then (48 + n % 10) ∷ acc else rest

-- 20 digits are enough below 2 ^ 64.
unfoldable pub decimal : ℕ → List ℕ
unfolding digits_of
decimal n = digits_of 20 n []

pub digits_of-length : (f n : ℕ) (acc : List ℕ) → length (digits_of f n acc) ≤ f + length acc
unfolding digits_of
digits_of-length zero n acc = omega arith
digits_of-length (suc f) n acc = ground (arith, digits_of-length f (n / 10) ((48 + n % 10) ∷ acc))
