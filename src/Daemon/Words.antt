-- ===== src/Daemon/Words.antt =====
-- What user/daemon/daemon.cpp uses of a string stream: `>>` of a word, and `getline`.
pub mod Read
use kvstore_lkm.Prelude.{
  ℕ, Bool, ◌||◌, ◌&&◌, Option, none, some, List, [], ◌∷◌, ◌==◌, leb, if◌then◌else◌,
}

-- `isspace`
abbrev pub is_space : ℕ → Bool
is_space c = c == 32 || (leb 9 c && leb c 13)

unfoldable pub skip_spaces : List ℕ → List ℕ
skip_spaces [] = []
skip_spaces (c ∷ s) = let rest = skip_spaces s in if is_space c then rest else c ∷ s

-- The bytes in front of the first space, and those from it on.
unfoldable pub span_word : List ℕ → List ℕ × List ℕ
span_word [] = ([], [])
span_word (c ∷ s) = let (w, rest) = span_word s in if is_space c then ([], c ∷ s) else (c ∷ w, rest)

-- `stream >> word`; `none` if the stream holds nothing but spaces.
unfoldable pub read_word : List ℕ → Option (List ℕ × List ℕ)
read_word s = elim (skip_spaces s) [ [] ↦ none | c ∷ t ↦ some (span_word (c ∷ t)) ]

-- `getline(stream, line)`, for a stream that is not read any further.
unfoldable pub get_line : List ℕ → List ℕ
get_line [] = []
get_line (c ∷ s) = if c == 10 then [] else c ∷ get_line s
