-- ===== src/Daemon/Key.antt =====
-- `parse_key` of user/daemon/daemon.cpp, over `strtoull` in base 10.
pub mod Parse
use kvstore_lkm.Prelude.{
  ℕ, ◌+◌, ◌-◌, ◌*◌, ◌%◌, ◌^◌, Bool, true, false, not, ◌&&◌, Option, none, some, List, [], ◌∷◌, ◌==◌,
  leb, if◌then◌else◌,
}
use kvstore_lkm.Text.{c_string}
use kvstore_lkm.Daemon.Words.{skip_spaces}

abbrev pub is_digit : ℕ → Bool
is_digit c = leb 48 c && leb c 57

abbrev pub starts_with_digit : List ℕ → Bool
starts_with_digit [] = false
starts_with_digit (c ∷ s) = is_digit c

-- The number that the leading digits write, from `acc` on, and what stands behind them.
unfoldable pub read_digits : ℕ → List ℕ → ℕ × List ℕ
read_digits acc [] = (acc, [])
read_digits acc (c ∷ s) =
    let rest = read_digits (acc * 10 + (c - 48)) s in if is_digit c then rest else (acc, c ∷ s)

-- A sign, and what stands behind it.
unfoldable pub read_sign : List ℕ → Bool × List ℕ
read_sign [] = (false, [])
read_sign (c ∷ s) =
    if c == b'-' then (true, s) else if c == b'+' then (false, s) else (false, c ∷ s)

-- What `strtoull` reports: nothing converted (`end` stays at the start), or ERANGE, or a value and
-- what `end` points to.
pub data Converted : Type 0 where
  nothing out_of_range : Converted
  value : ℕ → List ℕ → Converted

-- A minus sign negates the value as an unsigned number.
unfoldable pub strtoull : List ℕ → Converted
unfolding skip_spaces read_sign read_digits
strtoull s =
    let (minus, t) = read_sign (skip_spaces s) in
    if not (starts_with_digit t)
    then nothing
    else let (n, rest) = read_digits 0 t in
      if leb (2 ^ 64) n
      then out_of_range
      else value (if minus then (2 ^ 64 - n) % 2 ^ 64 else n) rest

-- `*end != '\0'`
abbrev pub at_end : List ℕ → Bool
at_end [] = true
at_end (c ∷ s) = false

abbrev pub whole : Converted → Option ℕ
whole nothing = none
whole out_of_range = none
whole (value n rest) = if at_end rest then some n else none

unfoldable pub parse_key : List ℕ → Option ℕ
parse_key key_text = whole (strtoull (c_string key_text))
