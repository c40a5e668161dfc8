-- ===== src/Text.antt =====
-- C strings in byte buffers: what <string.h> and `snprintf` do to an array of known size.
mod Decimal
pub use Decimal.{digits_of-length}
unfoldable pub use Decimal.{digits_of, decimal}
use kvstore_lkm.Prelude.{
  ℕ, zero, suc, ◌+◌, ◌-◌, ◌≤◌, ◌<◌, ◌≡◌, refl, ap, ◌≢◌, List, [], ◌∷◌, ◌++◌, arith, ◌==◌,
  if◌then◌else◌, length, take, replicate, length-take,
}

-- The bytes in front of the first NUL.
unfoldable pub c_string : List ℕ → List ℕ
c_string [] = []
c_string (x ∷ xs) = if x == 0 then [] else x ∷ c_string xs

-- `memcpy(dst, src, n)`: bytes are written over the front of the array, and none past its end.
unfoldable pub overwrite : List ℕ → List ℕ → List ℕ
overwrite [] dst = dst
overwrite (b ∷ bs) [] = []
overwrite (b ∷ bs) (x ∷ dst) = b ∷ overwrite bs dst

-- `snprintf(dst, n, …)` and `strscpy(dst, text, n)`: at most n - 1 bytes, and a NUL.
unfoldable pub put_text : List ℕ → ℕ → List ℕ → List ℕ
unfolding overwrite take
put_text dst n text = overwrite (take (n - 1) text ++ 0 ∷ []) dst

-- `strncpy(dst, text, n)`: at most n bytes, and NULs up to n.
unfoldable pub strncpy : List ℕ → List ℕ → ℕ → List ℕ
unfolding overwrite take replicate
strncpy dst text n = overwrite (take n text ++ replicate (n - length text) 0) dst

abbrev pub NoNul : List ℕ → Type 0
NoNul [] = Unit
NoNul (x ∷ xs) = (x ≢ 0) × NoNul xs

pub c_string-NoNul : (xs : List ℕ) → NoNul (c_string xs)
unfolding c_string
c_string-NoNul [] = tt
c_string-NoNul (x ∷ xs) = ground (arith, c_string-NoNul xs)

pub c_string_self : (xs : List ℕ) → NoNul xs → c_string xs ≡ xs
unfolding c_string
c_string_self [] h = refl
c_string_self (x ∷ xs) h = ground (arith, c_string_self xs)

pub length-c_string : (xs : List ℕ) → length (c_string xs) ≤ length xs
unfolding c_string
length-c_string [] = omega arith
length-c_string (x ∷ xs) = ground (arith, length-c_string xs)

pub length-overwrite : (bs dst : List ℕ) → length (overwrite bs dst) ≡ length dst
unfolding overwrite
length-overwrite [] dst = refl
length-overwrite (b ∷ bs) [] = refl
length-overwrite (b ∷ bs) (x ∷ dst) = ap suc (length-overwrite bs dst)

-- A text that fits is read back from the array that it was copied to.
pub c_string-overwrite :
    (t dst : List ℕ) → NoNul t → length t < length dst → c_string (overwrite (t ++ 0 ∷ []) dst) ≡ t
unfolding c_string overwrite
c_string-overwrite [] [] h l = absurd (omega arith)
c_string-overwrite [] (x ∷ dst) h l = refl
c_string-overwrite (b ∷ t) [] h l = absurd (omega arith)
c_string-overwrite (b ∷ t) (x ∷ dst) h l = ground (arith, c_string-overwrite t dst)

-- A string that ends inside the array is not changed by what stands behind the array.
pub c_string-append :
    (xs ys : List ℕ) → length (c_string xs) < length xs → c_string (xs ++ ys) ≡ c_string xs
unfolding c_string
c_string-append [] ys h = absurd (omega arith)
c_string-append (x ∷ xs) ys h = ground (arith, c_string-append xs ys)

pub NoNul-take : (n : ℕ) (xs : List ℕ) → NoNul xs → NoNul (take n xs)
unfolding take
NoNul-take zero xs h = tt
NoNul-take (suc n) [] h = tt
NoNul-take (suc n) (x ∷ xs) h = (h.0, NoNul-take n xs h.1)

pub NoNul-append : (xs ys : List ℕ) → NoNul xs → NoNul ys → NoNul (xs ++ ys)
NoNul-append [] ys h g = g
NoNul-append (x ∷ xs) ys h g = (h.0, NoNul-append xs ys h.1 g)

pub length-put_text : (dst : List ℕ) (n : ℕ) (t : List ℕ) → length (put_text dst n t) ≡ length dst
unfolding put_text
length-put_text dst n t = length-overwrite _ dst

-- `put_text` into an array of at least n bytes, read back: the text cut to n - 1 bytes.
pub c_string-put_text :
    (dst : List ℕ) (n : ℕ) (t : List ℕ)
    → NoNul t
    → 0 < n
    → n ≤ length dst
    → c_string (put_text dst n t) ≡ take (n - 1) t
unfolding put_text
c_string-put_text dst n t h p l =
    c_string-overwrite (take (n - 1) t) dst (NoNul-take (n - 1) t h)
      (omega (arith, length-take (n - 1) t))

-- A string with no NUL in the array runs on into what stands behind the array.
pub c_string_overrun : (xs ys : List ℕ) → NoNul xs → c_string (xs ++ ys) ≡ xs ++ c_string ys
unfolding c_string
c_string_overrun [] ys h = refl
c_string_overrun (x ∷ xs) ys h = ground (arith, c_string_overrun xs ys)

-- A text copied by `strncpy` into zero bytes, with room for one more.
overwrite_zeros :
    (t : List ℕ) (j m : ℕ)
    → NoNul t
    → length t < m
    → c_string (overwrite (t ++ replicate j 0) (replicate m 0)) ≡ t
unfolding c_string overwrite replicate
overwrite_zeros [] zero zero h l = absurd (omega arith)
overwrite_zeros [] zero (suc m) h l = refl
overwrite_zeros [] (suc j) zero h l = absurd (omega arith)
overwrite_zeros [] (suc j) (suc m) h l = refl
overwrite_zeros (b ∷ t) j zero h l = absurd (omega arith)
overwrite_zeros (b ∷ t) j (suc m) h l = ground (arith, overwrite_zeros t j m)

pub c_string-strncpy :
    (t : List ℕ) (n m : ℕ) → NoNul t → n < m → c_string (strncpy (replicate m 0) t n) ≡ take n t
unfolding strncpy
c_string-strncpy t n m h l =
    overwrite_zeros (take n t) (n - length t) m (NoNul-take n t h) (omega (arith, length-take n t))

pub length-strncpy : (dst t : List ℕ) (n : ℕ) → length (strncpy dst t n) ≡ length dst
unfolding strncpy
length-strncpy dst t n = length-overwrite _ dst
