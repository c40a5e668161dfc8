-- ===== src/Benchmark/Texts.antt =====
-- Texts that benchmark/benchmark.cpp sends and finds.
use kvstore_lkm.Prelude.{
  ℕ, ◌+◌, ◌≡◌, refl, true, List, [], ◌∷◌, ◌++◌, ◌≤◌, ap, ◌∙◌, take, take_all, length, length-append,
  codes, arith,
}
use mathlib.Core.List.{append_assoc}
use kvstore_lkm.Text.{c_string, NoNul, decimal, digits_of-length, c_string_self, NoNul-append}
use kvstore_lkm.Client.{begins, contains}
use kvstore_lkm.Daemon.Operation.{arrow, quoted, call_of}
use kvstore_lkm.Daemon.Protocol.Session.{decimal-NoNul}
use kvstore_lkm.Daemon.Words.Read.{NoNewline}
use kvstore_lkm.Daemon.Key.Parse.{AllDigits, decimal-AllDigits}

begins-append : (t ys : List ℕ) → begins t (t ++ ys) ≡ true
unfolding begins
begins-append [] ys = refl
begins-append (c ∷ t) ys = ground (arith, begins-append t ys)

-- A text is found where it stands.
pub contains-append : (xs t ys : List ℕ) → contains t (xs ++ (t ++ ys)) ≡ true
unfolding contains begins
contains-append [] [] [] = refl
contains-append [] [] (y ∷ ys) = refl
contains-append [] (c ∷ t) ys = ground (arith, begins-append (c ∷ t) ys)
contains-append (x ∷ xs) t ys = ground (arith, contains-append xs t ys)

AllDigits-NoNewline : (s : List ℕ) → AllDigits s → NoNewline s
AllDigits-NoNewline [] h = tt
AllDigits-NoNewline (c ∷ s) h = (ground (arith, h.0), AllDigits-NoNewline s h.1)

pub NoNewline-append : (xs ys : List ℕ) → NoNewline xs → NoNewline ys → NoNewline (xs ++ ys)
NoNewline-append [] ys h g = g
NoNewline-append (x ∷ xs) ys h g = (h.0, NoNewline-append xs ys h.1 g)

pub decimal-NoNewline : (n : ℕ) → NoNewline (decimal n)
decimal-NoNewline n = AllDigits-NoNewline (decimal n) (decimal-AllDigits n)

pub length-decimal : (n : ℕ) → length (decimal n) ≤ 20
unfolding decimal
length-decimal n = digits_of-length 20 n []

-- What the daemon answers to a KV_GET of a key that is there.
abbrev pub got : ℕ → List ℕ → List ℕ
got n v = call_of (codes "GET") (decimal n) ++ arrow ++ quoted v ++ codes "\n"

got-NoNul : (n : ℕ) (v : List ℕ) → NoNul v → NoNul (got n v)
got-NoNul n v h =
    NoNul-append (call_of (codes "GET") (decimal n) ++ arrow ++ quoted v) (codes "\n")
      (NoNul-append (call_of (codes "GET") (decimal n) ++ arrow) (quoted v)
        (NoNul-append (call_of (codes "GET") (decimal n)) arrow
          (NoNul-append (codes "GET" ++ codes "(" ++ quoted (decimal n)) (codes ")")
            (NoNul-append (codes "GET" ++ codes "(") (quoted (decimal n)) (ground arith)
              (quoted-NoNul (decimal n) (decimal-NoNul n)))
            (ground arith))
          (ground arith))
        (quoted-NoNul v h))
      (ground arith)
  where
    quoted-NoNul : (s : List ℕ) → NoNul s → NoNul (quoted s)
    quoted-NoNul s g = NoNul-append (b'"' ∷ s) (b'"' ∷ []) (omega arith, g) (ground arith)

length-quoted : (s : List ℕ) → length (quoted s) ≡ 2 + length s
length-quoted s = omega (arith, length-append s (b'"' ∷ []))

-- It fits the buffer.
pub c_string-got :
    (n : ℕ) (v : List ℕ) → NoNul v → length v ≤ 63 → c_string (take 1023 (got n v)) ≡ got n v
c_string-got n v h fits =
    let call = call_of (codes "GET") (decimal n) in
    let short : length (got n v) ≤ 1023 = omega (
      arith,
      fits,
      length-append (call ++ arrow ++ quoted v) (codes "\n"),
      length-append (call ++ arrow) (quoted v),
      length-append call arrow,
      length-append (codes "GET" ++ codes "(" ++ quoted (decimal n)) (codes ")"),
      length-append (codes "GET" ++ codes "(") (quoted (decimal n)),
      length-quoted v,
      length-quoted (decimal n),
      length-decimal n,
    ) in
    ap c_string (take_all 1023 (got n v) short) ∙ c_string_self (got n v) (got-NoNul n v h)

-- The value stands in it in quotes.
pub contains-got : (n : ℕ) (v : List ℕ) → contains (quoted v) (got n v) ≡ true
contains-got n v =
    let call = call_of (codes "GET") (decimal n) in
    rw (append_assoc (call ++ arrow) (quoted v) (codes "\n"))
      (contains-append (call ++ arrow) (quoted v) (codes "\n"))
