-- ===== src/Rpc/Exchange.antt =====
-- librpc: a message as a whole, from the one side that sends it to the other that reads it.
pub mod Request
pub mod Answer
pub mod Round
pub mod Refusal
use hardware_msm7k.Prelude.Words.{add32}
use hardware_msm7k.Prelude.{
  ℕ, zero, suc, ◌+◌, ◌-◌, ◌*◌, ◌%◌, ◌^◌, ◌≤◌, ◌<◌, ◌≡◌, refl, sym, ap, ◌∙◌, arith, List, [], ◌∷◌,
  ◌++◌, length,
}
use hardware_msm7k.Rpc.{Xdr, word_bytes, load_word, put_bytes, get_bytes}
use hardware_msm7k.Rpc.Stream.{msg_start, msg_call, appended}
use hardware_msm7k.Rpc.Memory.{
  put_bytes_below, get_bytes-agree, get_bytes-put_bytes, get_bytes-append, load_word-word_bytes,
}

-- A message with a number and a type in front, and some bytes behind them.
pub record Message (xid kind : ℕ) (bs : List ℕ) (m : ℕ → ℕ) : Type 0 where
  pub first_word : load_word m 0 ≡ xid
  pub second_word : load_word m 4 ≡ kind
  pub holds : get_bytes m (length bs) 8 ≡ bs

-- A word that stands in front of other bytes, and those bytes.
pub word_in_front :
    (v : ℕ) (cs : List ℕ) (m : ℕ → ℕ) (p : ℕ)
    → v < 2 ^ 32
    → get_bytes m (length (word_bytes v ++ cs)) p ≡ word_bytes v ++ cs
    → (load_word m p ≡ v) × (get_bytes m (length cs) (p + 4) ≡ cs)
word_in_front v cs m p bound h =
    let parts = get_bytes-append (word_bytes v) cs m p h in
    (load_word-word_bytes v m p bound parts.0, parts.1)

-- Storing bytes behind a word leaves the word.
word_kept :
    (cs : List ℕ) (at p v : ℕ) (m : ℕ → ℕ)
    → p + 4 ≤ at
    → v < 2 ^ 32
    → get_bytes m 4 p ≡ word_bytes v
    → get_bytes (put_bytes cs at m) 4 p ≡ word_bytes v
word_kept cs at p v m before bound h =
    get_bytes-agree (put_bytes cs at m) m 4 p
      (λ j lo hi. put_bytes_below cs at m j (omega (arith, before, hi)))
    ∙ h

-- The number that `xdr_std_msg_start` puts in front.
abbrev pub xid_of : (kind : ℕ) → Xdr → ℕ
xid_of kind x = (msg_start kind x).xid

-- What is sent behind `xdr_std_msg_start` is a message of that type.
pub msg_start-Message :
    (kind : ℕ) (bs : List ℕ) (x : Xdr)
    → kind < 2 ^ 32
    → xid_of kind x < 2 ^ 32
    → Message (xid_of kind x) kind bs (appended bs (msg_start kind x)).out_msg
unfolding msg_start
msg_start-Message kind bs x kind_bound xid_bound =
    let m0 = put_bytes (word_bytes (xid_of kind x)) 0 x.out_msg in
    let m1 = put_bytes (word_bytes kind) 4 m0 in
    let xid_there =
      word_kept (word_bytes kind) 4 0 (xid_of kind x) m0 (omega arith) xid_bound
        (get_bytes-put_bytes (word_bytes (xid_of kind x)) 0 x.out_msg) in
    record {
      first_word =
          load_word-word_bytes (xid_of kind x) (put_bytes bs 8 m1) 0 xid_bound
            (word_kept bs 8 0 (xid_of kind x) m1 (omega arith) xid_bound xid_there);
      second_word = load_word-word_bytes kind (put_bytes bs 8 m1) 4 kind_bound (
          word_kept bs 8 4 kind m1 (omega arith) kind_bound
            (get_bytes-put_bytes (word_bytes kind) 4 m0));
      holds = get_bytes-put_bytes bs 8 m1;
    }
