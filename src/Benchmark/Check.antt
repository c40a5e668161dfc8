-- ===== src/Benchmark/Check.antt =====
-- `check_value` of benchmark/benchmark.cpp on what the daemon answers.
use native.Mathlib.Nat.{pow-suc}
use kvstore_lkm.Prelude.{
  ℕ, zero, suc, ◌+◌, ◌-◌, ◌*◌, ◌/◌, ◌%◌, ◌^◌, ◌≡◌, ◌≤◌, ◌<◌, refl, true, false, inl, inr,
  Bool-cases, some, List, [], ◌∷◌, ◌++◌, arith, ◌==◌, ltb, if◌then◌else◌, codes, drop,
}
use mathlib.Core.List.{append_assoc}
use kvstore_lkm.Text.{decimal, digits_of}
use kvstore_lkm.Daemon.Key.{starts_with_digit}
use kvstore_lkm.Daemon.Key.Parse.{digit_is, digits_last, digits_more, decimal_starts}
use kvstore_lkm.Client.{begins}
use kvstore_lkm.Benchmark.{
  behind, skip_quotes, Checked, overflow, good, read_value, value_at, check_value,
}
use kvstore_lkm.Benchmark.Texts.{got}

-- The value that the writer stores for a count.
abbrev pub count_text : ℕ → List ℕ
count_text n = codes "count:" ++ decimal n

-- A count that `long long` holds, and one that it does not.
abbrev pub bounded : ℕ → Checked → Checked
bounded n c = if ltb n (2 ^ 63) then c else overflow

digits_of-append : (f n : ℕ) (acc t : List ℕ) → digits_of f n acc ++ t ≡ digits_of f n (acc ++ t)
digits_of-append zero n acc t = unfold digits_of in refl
digits_of-append (suc f) n acc t = elim (Bool-cases (n / 10 == 0)) [
  | inl last ↦ rw (digits_last f n acc last, digits_last f n (acc ++ t) last) refl
  | inr more ↦
      rw (digits_more f n acc more, digits_more f n (acc ++ t) more)
        (digits_of-append f (n / 10) ((48 + n % 10) ∷ acc) t)
]

-- One more digit.
read_step :
    (v n : ℕ) (s : List ℕ)
    → read_value v ((48 + n % 10) ∷ s) ≡ bounded (v * 10 + n % 10) (read_value (v * 10 + n % 10) s)
read_step v n s =
    let digit = digit_is n in
    let same : v * 10 + (48 + n % 10 - 48) ≡ v * 10 + n % 10 = omega arith in
    unfold read_value in rw (digit, same)

bounded_twice : (m n : ℕ) (c : Checked) → m ≤ n → bounded m (bounded n c) ≡ bounded n c
bounded_twice m n c h = ground arith

some_digits : (f m : ℕ) → m < 10 ^ f → (m == 0) ≡ false → 0 < f
some_digits zero m h more = absurd (ground (arith, h, more))
some_digits (suc f) m h more = omega arith

-- The digits of a number are read as the number, if it is not too large.
read_value-digits_of :
    (f n : ℕ) (s : List ℕ)
    → n < 10 ^ f
    → 0 < f
    → read_value 0 (digits_of f n s) ≡ bounded n (read_value n s)
read_value-digits_of zero n s h p = absurd (omega (arith, p))
read_value-digits_of (suc f) n s h p = elim (Bool-cases (n / 10 == 0)) [
  | inl last ↦
      let small : 0 * 10 + n % 10 ≡ n = ground arith in
      rw (digits_last f n s last, read_step, small)
  | inr more ↦
      let fewer : n / 10 < 10 ^ f = omega (arith, pow-suc 10 f) in
      let some_left = some_digits f (n / 10) fewer more in
      let whole : n / 10 * 10 + n % 10 ≡ n = omega arith in
      rw
        (
          digits_more f n s more,
          read_value-digits_of f (n / 10) ((48 + n % 10) ∷ s) fewer some_left,
          read_step,
          whole,
        )
        (bounded_twice (n / 10) n (read_value n s) (omega arith))
]

skip_digits : (s t : List ℕ) → starts_with_digit s ≡ true → skip_quotes (s ++ t) ≡ s ++ t
unfolding skip_quotes
skip_digits [] t h = cc
skip_digits (c ∷ s) t h = ground (arith, h)

value_at_digits :
    (s t : List ℕ) → starts_with_digit s ≡ true → value_at (s ++ t) ≡ read_value 0 (s ++ t)
value_at_digits [] t h = cc
value_at_digits (c ∷ s) t h = rw h

zero_text : decimal 0 ≡ codes "0"
unfolding decimal digits_of
zero_text = refl

behind-got :
    (s : List ℕ)
    → behind (codes "count:") (got 0 (codes "count:" ++ s)) ≡ some (s ++ (b'"' ∷ []) ++ codes "\n")
behind-got s = rw zero_text (unfold behind begins drop in refl)

-- `check_value` takes from the answer of the daemon to a get of the key 0, with a count below 2^64
-- as its value, that count if it is below 2^63; if not, its `long long` overflows.
pub check_value_lem : (n : ℕ) → n < 2 ^ 64 → check_value (got 0 (count_text n)) ≡ bounded n (good n)
check_value_lem n h =
    let t = b'"' ∷ codes "\n" in
    let starts = decimal_starts n in
    let digits : decimal n ++ t ≡ digits_of 20 n t = unfold decimal in digits_of-append 20 n [] t in
    unfold check_value in
    rw
      (
        behind-got (decimal n),
        check_value,
        append_assoc (decimal n) (b'"' ∷ []) (codes "\n"),
        skip_digits (decimal n) t starts,
        value_at_digits (decimal n) t starts,
        digits,
        read_value-digits_of 20 n t (omega (arith, h)) (omega arith),
      )
      (unfold read_value in refl)
