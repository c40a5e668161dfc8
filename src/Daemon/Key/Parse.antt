-- ===== src/Daemon/Key/Parse.antt =====
-- Which texts `parse_key` of user/daemon/daemon.cpp takes for which key.
use native.Mathlib.Nat.{pow-suc}
use kvstore_lkm.Prelude.{
  ℕ, zero, suc, ◌+◌, ◌-◌, ◌*◌, ◌/◌, ◌%◌, ◌^◌, ◌≡◌, ◌<◌, refl, ◌∙◌, inl, inr, true, false,
  Bool-cases, some, List, [], ◌∷◌, arith, ◌==◌, leb, if◌then◌else◌,
}
use kvstore_lkm.Text.{c_string_self, NoNul, decimal, digits_of}
use kvstore_lkm.Daemon.Words.{is_space, skip_spaces}
use kvstore_lkm.Daemon.Key.{
  is_digit, starts_with_digit, read_digits, read_sign, strtoull, out_of_range, value, parse_key,
}

abbrev pub AllDigits : List ℕ → Type 0
AllDigits [] = Unit
AllDigits (c ∷ s) = (is_digit c ≡ true) × AllDigits s

pub digit_is : (n : ℕ) → is_digit (48 + n % 10) ≡ true
digit_is n = ground arith

pub digits_last :
    (f n : ℕ) (acc : List ℕ) → (n / 10 == 0) ≡ true → digits_of (suc f) n acc ≡ (48 + n % 10) ∷ acc
digits_last f n acc h = unfold digits_of in rw h

pub digits_more :
    (f n : ℕ) (acc : List ℕ)
    → (n / 10 == 0) ≡ false
    → digits_of (suc f) n acc ≡ digits_of f (n / 10) ((48 + n % 10) ∷ acc)
digits_more f n acc h = unfold digits_of in rw h

digits_of-AllDigits : (f n : ℕ) (acc : List ℕ) → AllDigits acc → AllDigits (digits_of f n acc)
digits_of-AllDigits zero n acc h = unfold digits_of in h
digits_of-AllDigits (suc f) n acc h = elim (Bool-cases (n / 10 == 0)) [
  | inl last ↦ rw (digits_last f n acc last) (digit_is n, h)
  | inr more ↦
      rw (digits_more f n acc more)
        (digits_of-AllDigits f (n / 10) ((48 + n % 10) ∷ acc) (digit_is n, h))
]

pub decimal-AllDigits : (n : ℕ) → AllDigits (decimal n)
decimal-AllDigits n = unfold decimal in digits_of-AllDigits 20 n [] tt

-- There is at least one digit.
digits_of-starts :
    (f n : ℕ) (acc : List ℕ)
    → starts_with_digit acc ≡ true
    → starts_with_digit (digits_of f n acc) ≡ true
digits_of-starts zero n acc h = unfold digits_of in h
digits_of-starts (suc f) n acc h = elim (Bool-cases (n / 10 == 0)) [
  | inl last ↦ rw (digits_last f n acc last) (digit_is n)
  | inr more ↦
      rw (digits_more f n acc more) (digits_of-starts f (n / 10) ((48 + n % 10) ∷ acc) (digit_is n))
]

pub decimal_starts : (n : ℕ) → starts_with_digit (decimal n) ≡ true
decimal_starts n = elim (Bool-cases (n / 10 == 0)) [
  | inl last ↦ unfold decimal in rw (digits_last 19 n [] last) (digit_is n)
  | inr more ↦
      unfold decimal in
      rw (digits_more 19 n [] more) (digits_of-starts 19 (n / 10) ((48 + n % 10) ∷ []) (digit_is n))
]

pub AllDigits-NoNul : (s : List ℕ) → AllDigits s → NoNul s
AllDigits-NoNul [] h = tt
AllDigits-NoNul (c ∷ s) h = (ground arith, AllDigits-NoNul s h.1)

read_digit :
    (acc n : ℕ) (s : List ℕ)
    → read_digits acc ((48 + n % 10) ∷ s) ≡ read_digits (acc * 10 + n % 10) s
read_digit acc n s =
    let digit : is_digit (48 + n % 10) ≡ true = digit_is n in
    let same : acc * 10 + (48 + n % 10 - 48) ≡ acc * 10 + n % 10 = omega arith in
    unfold read_digits in rw (digit, same)

-- The digits of a number are read back as the number.
read_digits-digits_of :
    (f n : ℕ) (acc : List ℕ) → n < 10 ^ f → read_digits 0 (digits_of f n acc) ≡ read_digits n acc
read_digits-digits_of zero n acc h =
    let none_left : n ≡ 0 = omega arith in rw none_left (unfold digits_of in refl)
read_digits-digits_of (suc f) n acc h = elim (Bool-cases (n / 10 == 0)) [
  | inl last ↦
      let small : 0 * 10 + n % 10 ≡ n = ground arith in
      rw (digits_last f n acc last, read_digit, small)
  | inr more ↦
      let fewer : n / 10 < 10 ^ f = omega (arith, pow-suc 10 f) in
      let whole : n / 10 * 10 + n % 10 ≡ n = omega arith in
      rw (
        digits_more f n acc more,
        read_digits-digits_of f (n / 10) ((48 + n % 10) ∷ acc) fewer,
        read_digit,
        whole,
      )
]

-- A number below 2^64 is read back from its digits.
pub read_decimal : (n : ℕ) → n < 2 ^ 64 → read_digits 0 (decimal n) ≡ (n, [])
read_decimal n h =
    unfold decimal in (read_digits-digits_of 20 n [] (omega arith) ∙ (unfold read_digits in refl))

-- A text that begins with a digit has no space and no sign to skip.
pub no_sign : (s : List ℕ) → starts_with_digit s ≡ true → read_sign (skip_spaces s) ≡ (false, s)
no_sign [] h = cc
no_sign (c ∷ s) h =
    let no_space : is_space c ≡ false = ground arith in
    let no_minus : (c == b'-') ≡ false = ground arith in
    let no_plus : (c == b'+') ≡ false = ground arith in
    unfold read_sign skip_spaces in rw (no_space, no_minus, no_plus)

plain :
    (s : List ℕ)
    → starts_with_digit s ≡ true
    → strtoull s
      ≡ (let (n, rest) = read_digits 0 s in if leb (2 ^ 64) n then out_of_range else value n rest)
plain s h = unfold strtoull in rw (no_sign s h, h)

-- `parse_key` reads the decimal digits of a number below 2^64 as that number.
pub parse_key-decimal : (n : ℕ) → n < 2 ^ 64 → parse_key (decimal n) ≡ some n
parse_key-decimal n h =
    let fits : leb (2 ^ 64) n ≡ false = ground arith in
    let converted : strtoull (decimal n) ≡ value n [] =
      plain (decimal n) (decimal_starts n) ∙ rw (read_decimal n h, fits) refl in
    let text = c_string_self (decimal n) (AllDigits-NoNul (decimal n) (decimal-AllDigits n)) in
    unfold parse_key in rw (text, converted) refl

plain_minus :
    (s : List ℕ)
    → starts_with_digit s ≡ true
    → strtoull (b'-' ∷ s) ≡ (
        let (n, rest) = read_digits 0 s in
        if leb (2 ^ 64) n then out_of_range else value ((2 ^ 64 - n) % 2 ^ 64) rest)
plain_minus [] h = cc
plain_minus (c ∷ s) h = unfold strtoull in rw h

-- `parse_key` accepts a minus sign in front of the decimal digits of a number below 2^64, and gives
-- the negated number modulo 2^64.
pub parse_key-minus :
    (n : ℕ) → n < 2 ^ 64 → parse_key (b'-' ∷ decimal n) ≡ some ((2 ^ 64 - n) % 2 ^ 64)
parse_key-minus n h =
    let fits : leb (2 ^ 64) n ≡ false = ground arith in
    let converted : strtoull (b'-' ∷ decimal n) ≡ value ((2 ^ 64 - n) % 2 ^ 64) [] =
      plain_minus (decimal n) (decimal_starts n) ∙ rw (read_decimal n h, fits) refl in
    let text =
      c_string_self (b'-' ∷ decimal n)
        (omega arith, AllDigits-NoNul (decimal n) (decimal-AllDigits n)) in
    unfold parse_key in rw (text, converted) refl
