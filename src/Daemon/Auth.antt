-- ===== src/Daemon/Auth.antt =====
-- user/daemon/auth.cpp and auth.h: the check of a password by PAM.
pub mod Accept
use kvstore_lkm.Prelude.{
  ℕ, suc, Bool, false, not, Option, none, some, List, [], ◌∷◌, ◌==◌, if◌then◌else◌,
}

-- `msg_style`; only PAM_PROMPT_ECHO_OFF asks for the password.
pub data Style : Type 0 where
  echo_off other_style : Style

-- PAM_BUF_ERR, or PAM_SUCCESS with a response for each message; a NULL `resp` is `none`.
pub data Conversation : Type 0 where
  buf_err : Conversation
  answered : List (Option (List ℕ)) → Conversation

abbrev pub put_answer : Option (List ℕ) → Conversation → Conversation
put_answer r buf_err = buf_err
put_answer r (answered rs) = answered (r ∷ rs)

-- The loop over the messages; `strdup_ok i` says whether the copy for message i succeeds.
unfoldable pub answer_all : List ℕ → (ℕ → Bool) → ℕ → List Style → Conversation
answer_all pw strdup_ok i [] = answered []
answer_all pw strdup_ok i (echo_off ∷ msgs) =
    let rest = answer_all pw strdup_ok (suc i) msgs in
    if not (strdup_ok i) then buf_err else put_answer (some pw) rest
answer_all pw strdup_ok i (other_style ∷ msgs) =
    put_answer none (answer_all pw strdup_ok (suc i) msgs)

-- A NULL `appdata_ptr` is answered by the empty string.
unfoldable pub conv_func : Bool → (ℕ → Bool) → Option (List ℕ) → List Style → Conversation
unfolding answer_all
conv_func calloc_ok strdup_ok pw msgs =
    if not calloc_ok
    then buf_err
    else answer_all (elim pw [ none ↦ [] | some p ↦ p ]) strdup_ok 0 msgs

-- libpam, for the service "login"; 0 is PAM_SUCCESS. `pam_authenticate` may call the conversation.
pub record Pam : Type 0 where
  pub pam_start : List ℕ → ℕ
  pub pam_authenticate : List ℕ → (List Style → Conversation) → ℕ
  pub pam_acct_mgmt : List ℕ → ℕ
  pub calloc_ok : Bool
  pub strdup_ok : ℕ → Bool

unfoldable pub authenticate : Pam → List ℕ → List ℕ → Bool
authenticate pam user password =
    if not (pam.pam_start user == 0)
    then false
    else let ret =
        pam.pam_authenticate user (conv_func pam.calloc_ok pam.strdup_ok (some password)) in
      let ret' = if ret == 0 then pam.pam_acct_mgmt user else ret in ret' == 0
