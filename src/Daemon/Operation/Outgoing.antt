-- ===== src/Daemon/Operation/Outgoing.antt =====
-- The message that `do_kv_operation` of user/daemon/daemon.cpp sends to the device.
use kvstore_lkm.Prelude.{
  ℕ, ◌≡◌, refl, ◌∙◌, List, [], ◌∷◌, arith, length, take, replicate, length-take, length-replicate,
}
use kvstore_lkm.Text.{c_string, NoNul, c_string-strncpy, length-strncpy}
use kvstore_lkm.Message.{zero_value}
use kvstore_lkm.Device.Values.{IsTerminated}
use kvstore_lkm.Daemon.Operation.{outgoing}

-- What reaches the device is cut to 63 bytes, and ends in its array.
pub c_string-outgoing :
    (n : ℕ) (text : List ℕ) → NoNul text → c_string (outgoing n text).value ≡ take 63 text
unfolding outgoing
c_string-outgoing n [] h = unfold c_string take replicate in refl
c_string-outgoing n (c ∷ s) h = c_string-strncpy (c ∷ s) 63 64 h (omega arith)

length-outgoing : (n : ℕ) (text : List ℕ) → length (outgoing n text).value ≡ 64
unfolding outgoing
length-outgoing n [] = length-replicate {A = ℕ} 64 0
length-outgoing n (c ∷ s) = length-strncpy zero_value (c ∷ s) 63 ∙ length-replicate {A = ℕ} 64 0

pub outgoing-IsTerminated : (n : ℕ) (text : List ℕ) → NoNul text → IsTerminated (outgoing n text)
outgoing-IsTerminated n text h = record {
  size = length-outgoing n text;
  ends = rw (c_string-outgoing n text h) (omega (arith, length-take 63 text));
}

pub outgoing_key : (n : ℕ) (text : List ℕ) → (outgoing n text).key ≡ n
unfolding outgoing
outgoing_key n [] = refl
outgoing_key n (c ∷ s) = refl
