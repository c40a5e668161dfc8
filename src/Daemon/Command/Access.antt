-- ===== src/Daemon/Command/Access.antt =====
-- Who may do what: the AUTH gate of user/daemon/daemon.cpp.
use kvstore_lkm.Prelude.{
  ℕ, ◌≡◌, refl, sym, Bool, true, false, not, Option, none, some, List, if◌then◌else◌, text_eq,
  codes,
}
use mathlib.Core.Bool.{false≢true}
use kvstore_lkm.Hash.Table.{Hashing}
use kvstore_lkm.Daemon.Words.{read_word}
use kvstore_lkm.Daemon.Auth.{Pam, authenticate}
use kvstore_lkm.Daemon.Command.{Server, Setting, do_auth, parse_and_handle_command}

-- If the command is an AUTH with a user name and a password, PAM does not accept them.
abbrev pub Refuses : Pam → List ℕ → Type 0
Refuses pam command =
    (w user password : List ℕ × List ℕ)
    → read_word command ≡ some w
    → text_eq w.0 (codes "AUTH") ≡ true
    → read_word w.1 ≡ some user
    → read_word user.1 ≡ some password
    → authenticate pam user.0 password.0 ≡ false

-- What both branches have, the conditional has; and what every word gives, the reading of one.
pub either :
    (P : List ℕ × Server → Type 0) (b : Bool) (x y : List ℕ × Server)
    → P x
    → P y
    → P (if b then x else y)
either P true x y h g = h
either P false x y h g = g

otherwise :
    (P : List ℕ × Server → Type 0) (b : Bool) (x y : List ℕ × Server)
    → b ≡ false
    → P y
    → P (if b then x else y)
otherwise P true x y h g = absurd (false≢true (sym h))
otherwise P false x y h g = g

gate :
    (P : List ℕ × Server → Type 0) (a : Bool) (x y : List ℕ × Server)
    → a ≡ false
    → P y
    → P (if not a then y else x)
gate P true x y h g = absurd (false≢true (sym h))
gate P false x y h g = g

pub with_word :
    (P : List ℕ × Server → Type 0) (w : Option (List ℕ × List ℕ)) (x : List ℕ × Server)
    (f : List ℕ × List ℕ → List ℕ × Server)
    → P x
    → ((p : List ℕ × List ℕ) → P (f p))
    → P (elim w [ none ↦ x | some p ↦ f p ])
with_word P none x f h g = h
with_word P (some p) x f h g = g p

-- The same with what was found out on the way.
with_read :
    (P : List ℕ × Server → Type 0) (w : Option (List ℕ × List ℕ)) (x : List ℕ × Server)
    (f : List ℕ × List ℕ → List ℕ × Server)
    → P x
    → ((p : List ℕ × List ℕ) → w ≡ some p → P (f p))
    → P (elim w [ none ↦ x | some p ↦ f p ])
with_read P none x f h g = h
with_read P (some p) x f h g = g p refl

either_if :
    (P : List ℕ × Server → Type 0) (b : Bool) (x y : List ℕ × Server)
    → (b ≡ true → P x)
    → P y
    → P (if b then x else y)
either_if P true x y h g = h refl
either_if P false x y h g = g

auth_refused :
    (set : Setting) (s : List ℕ) (v : Server)
    → ((user password : List ℕ × List ℕ)
        → read_word s ≡ some user
        → read_word user.1 ≡ some password
        → authenticate set.pam user.0 password.0 ≡ false)
    → (do_auth set s v).1 ≡ v
unfolding do_auth
auth_refused set s v refuses =
    let P = (λ (r : List ℕ × Server). r.1 ≡ v) in
    with_read P (read_word s) _ _ refl (λ u first.
      with_read P (read_word u.1) _ _ refl (λ p second.
        otherwise P (authenticate set.pam u.0 p.0) _ _ (refuses u p first second) refl))

module _ ⦃hashing : Hashing⦄ where
  -- A command that does not authenticate a connection that has not changes nothing.
  pub unauthenticated_refused :
      (set : Setting) (command : List ℕ) (v : Server)
      → v.authenticated ≡ false
      → Refuses set.pam command
      → (parse_and_handle_command set command v).1 ≡ v
  unfolding parse_and_handle_command
  unauthenticated_refused set command v closed refuses =
      let P = (λ (r : List ℕ × Server). r.1 ≡ v) in
      with_read P (read_word command) _ _ refl (λ w word.
        either_if P (text_eq w.0 (codes "AUTH")) _ _
          (λ is_auth.
            auth_refused set w.1 v (λ u p first second. refuses w u p word is_auth first second))
          (gate P v.authenticated _ _ closed refl))
