-- ===== src/Usr/NonceMap.antt =====
-- src/usr/input_nonce_map.cpp: the last nonce of each user, by which inputs that are replayed or
-- out of order are refused. The sequence number of the last closed ledger and the clock, in
-- milliseconds since the epoch, are arguments.
pub mod Replay
use hpcore.Base.{
  ℕ, Bool, true, false, ◌&&◌, ◌||◌, List, Option, none, some, Bytes, bytes_eq, find, put, remove_if,
  length, ltb, leb, ◌==◌, if◌then◌else◌, bytes_keyed,
}

-- The tuple that is kept for a public key.
pub record Entry : Type 0 where
  pub nonce : ℕ
  pub sig : Bytes
  pub max_ledger_seq_no : ℕ

abbrev pub NonceMap : Type 0
NonceMap = List (Bytes × Entry)

abbrev pub cleanup_threshold : ℕ
cleanup_threshold = 256

-- 0: the nonce can be used; 1: it has expired; 2: the same message has been submitted.
abbrev pub Verdict : Type 0
Verdict = ℕ

unfoldable pub cleanup : ℕ → NonceMap → NonceMap
cleanup now m = remove_if (λ e. leb e.max_ledger_seq_no now) m

-- The verdict on a submission, and what is kept if it is to be remembered.
abbrev pub judge : Option Entry → ℕ → Bytes → ℕ → ℕ → Verdict × Option Entry
judge none nonce sig max_ledger_seq_no lcl_seq_no =
    (0, some (record { nonce = nonce; sig = sig; max_ledger_seq_no = max_ledger_seq_no }))
judge (some e) nonce sig max_ledger_seq_no lcl_seq_no =
    if leb e.max_ledger_seq_no lcl_seq_no || ltb e.nonce nonce
    then (0, some (record e { nonce = nonce; max_ledger_seq_no = max_ledger_seq_no }))
    else ((if (e.nonce == nonce) && bytes_eq e.sig sig then 2 else 1), none)

abbrev pub remember : Bytes → Bool → Option Entry → NonceMap → NonceMap
remember pubkey no_add none m = m
remember pubkey no_add (some e) m = if no_add then m else put pubkey e m

abbrev pub tidy : ℕ → NonceMap → NonceMap
tidy now m = if ltb cleanup_threshold (length m) then cleanup now m else m

unfoldable pub check : Bytes → ℕ → Bytes → ℕ → Bool → ℕ → ℕ → NonceMap → Verdict × NonceMap
check pubkey nonce sig max_ledger_seq_no no_add lcl_seq_no now m =
    let (verdict, kept) = judge (find pubkey m) nonce sig max_ledger_seq_no lcl_seq_no in
    (verdict, tidy now (remember pubkey no_add kept m))
