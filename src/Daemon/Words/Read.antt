-- ===== src/Daemon/Words/Read.antt =====
-- Words and lines that user/daemon/daemon.cpp reads back from a command.
use kvstore_lkm.Prelude.{ℕ, ◌≡◌, ◌≢◌, refl, ap, true, false, some, List, [], ◌∷◌, ◌++◌, arith}
use kvstore_lkm.Daemon.Words.{is_space, skip_spaces, span_word, read_word, get_line}

abbrev pub NoSpaces : List ℕ → Type 0
NoSpaces [] = Unit
NoSpaces (c ∷ s) = (is_space c ≡ false) × NoSpaces s

-- Nothing, or a space first.
abbrev pub EndsWord : List ℕ → Type 0
EndsWord [] = Unit
EndsWord (c ∷ s) = is_space c ≡ true

abbrev pub NoNewline : List ℕ → Type 0
NoNewline [] = Unit
NoNewline (c ∷ s) = (c ≢ 10) × NoNewline s

span_word_ends : (s : List ℕ) → EndsWord s → span_word s ≡ ([], s)
unfolding span_word
span_word_ends [] h = refl
span_word_ends (c ∷ s) h = rw h

span_word-append :
    (w rest : List ℕ) → NoSpaces w → EndsWord rest → span_word (w ++ rest) ≡ (w, rest)
unfolding span_word
span_word-append [] rest h e = span_word_ends rest e
span_word-append (c ∷ w) rest h e =
    let tail = span_word-append w rest h.1 e in
    rw (h.0) (ap (λ (r : List ℕ × List ℕ). (c ∷ r.0, r.1)) tail)

-- A word is read up to the space behind it.
pub read_word-append :
    (c : ℕ) (w rest : List ℕ)
    → NoSpaces (c ∷ w)
    → EndsWord rest
    → read_word (c ∷ w ++ rest) ≡ some (c ∷ w, rest)
read_word-append c w rest h e =
    let spanned = span_word-append (c ∷ w) rest h e in
    let kept : skip_spaces (c ∷ w ++ rest) ≡ c ∷ w ++ rest = unfold skip_spaces in rw (h.0) in
    unfold read_word in rw (kept, read_word) (ap some spanned)

-- A space in front of a word is skipped.
pub read_word_space : (s : List ℕ) → read_word (32 ∷ s) ≡ read_word s
unfolding read_word skip_spaces
read_word_space s = refl

pub get_line_all : (s : List ℕ) → NoNewline s → get_line s ≡ s
unfolding get_line
get_line_all [] h = refl
get_line_all (c ∷ s) h = ground (arith, get_line_all s)
