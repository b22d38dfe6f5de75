-- ===== src/Util/SequenceHash.antt =====
-- src/util/h32.cpp and sequence_hash.cpp: 32-byte hashes as four 64-bit words, and a hash with a
-- sequence number. Printing and the hashing of keys are left out.
pub mod Keys
use Prim.Native.Nat.{bit_xor}
use hpcore.Base.{ℕ, Bool, not, ◌&&◌, ◌||◌, ltb, ◌==◌, if◌then◌else◌}

pub record H32 : Type 0 where
  pub word0 : ℕ
  pub word1 : ℕ
  pub word2 : ℕ
  pub word3 : ℕ

abbrev pub h32_empty : H32
h32_empty = record { word0 = 0; word1 = 0; word2 = 0; word3 = 0 }

unfoldable pub h32_eq : H32 → H32 → Bool
h32_eq a b =
    (a.word0 == b.word0) && (a.word1 == b.word1) && (a.word2 == b.word2) && (a.word3 == b.word3)

unfoldable pub h32_ne : H32 → H32 → Bool
h32_ne a b =
    not (a.word0 == b.word0)
    || not (a.word1 == b.word1)
    || not (a.word2 == b.word2)
    || not (a.word3 == b.word3)

-- `operator<` of h32: the first word alone.
unfoldable pub h32_lt : H32 → H32 → Bool
h32_lt a b = ltb a.word0 b.word0

-- `operator^=`.
pub h32_xor : H32 → H32 → H32
h32_xor a b = record {
  word0 = bit_xor a.word0 b.word0;
  word1 = bit_xor a.word1 b.word1;
  word2 = bit_xor a.word2 b.word2;
  word3 = bit_xor a.word3 b.word3;
}

pub record SequenceHash : Type 0 where
  pub seq_no : ℕ
  pub hash : H32

unfoldable pub seq_ne : SequenceHash → SequenceHash → Bool
unfolding h32_ne
seq_ne a b = not (a.seq_no == b.seq_no) || h32_ne a.hash b.hash

unfoldable pub seq_eq : SequenceHash → SequenceHash → Bool
unfolding h32_eq
seq_eq a b = (a.seq_no == b.seq_no) && h32_eq a.hash b.hash

unfoldable pub seq_lt : SequenceHash → SequenceHash → Bool
unfolding h32_lt
seq_lt a b = if a.seq_no == b.seq_no then h32_lt a.hash b.hash else ltb a.seq_no b.seq_no

unfoldable pub seq_empty : SequenceHash → Bool
unfolding h32_eq
seq_empty a = (a.seq_no == 0) && h32_eq a.hash h32_empty
