-- ===== src/Daemon/Auth/Accept.antt =====
-- What `conv_func` answers and when `authenticate` accepts: user/daemon/auth.cpp.
use kvstore_lkm.Prelude.{ℕ, suc, ◌≡◌, refl, Bool, true, Option, none, some, List, [], ◌∷◌}
use kvstore_lkm.Daemon.Auth.{Style, echo_off, other_style, answered, answer_all, conv_func}

-- The responses that a conversation may give for a password.
abbrev pub GoodAnswers : List ℕ → List Style → List (Option (List ℕ)) → Type 0
GoodAnswers pw [] [] = Unit
GoodAnswers pw (echo_off ∷ msgs) (r ∷ rs) = (r ≡ some pw) × GoodAnswers pw msgs rs
GoodAnswers pw (other_style ∷ msgs) (r ∷ rs) = (r ≡ none) × GoodAnswers pw msgs rs
GoodAnswers pw _ _ = ⊥

answer_all_ok :
    (pw : List ℕ) (strdup_ok : ℕ → Bool) (i : ℕ) (msgs : List Style)
    → ((j : ℕ) → strdup_ok j ≡ true)
    → (rs : List (Option (List ℕ))) × (answer_all pw strdup_ok i msgs ≡ answered rs)
      × GoodAnswers pw msgs rs
unfolding answer_all
answer_all_ok pw strdup_ok i [] ok = ([], refl, tt)
answer_all_ok pw strdup_ok i (echo_off ∷ msgs) ok =
    let (rs, run, good) = answer_all_ok pw strdup_ok (suc i) msgs ok in
    (some pw ∷ rs, rw (ok i, run), (refl, good))
answer_all_ok pw strdup_ok i (other_style ∷ msgs) ok =
    let (rs, run, good) = answer_all_ok pw strdup_ok (suc i) msgs ok in
    (none ∷ rs, rw run, (refl, good))

-- If its allocations succeed, the conversation gives PAM one response per message: the password to
-- each message that asks with echo off, and NULL to every other.
pub conv_func_answers :
    (strdup_ok : ℕ → Bool) (pw : List ℕ) (msgs : List Style)
    → ((j : ℕ) → strdup_ok j ≡ true)
    → (rs : List (Option (List ℕ))) × (conv_func true strdup_ok (some pw) msgs ≡ answered rs)
      × GoodAnswers pw msgs rs
unfolding conv_func
conv_func_answers strdup_ok pw msgs ok = answer_all_ok pw strdup_ok 0 msgs ok
