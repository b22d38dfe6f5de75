-- ===== src/Util/SequenceHash/Keys.antt =====
-- The orders of h32 and sequence_hash as orders of map keys, and how they stand to `==`.
use hpcore.Base.{◌≡◌, ◌↔◌, true, false, not, arith, Ordered, equivalent}
use hpcore.Util.SequenceHash.{H32, SequenceHash, h32_eq, h32_ne, h32_lt, seq_eq, seq_ne, seq_lt}

pub h32_lt_irrefl : (a : H32) → h32_lt a a ≡ false
unfolding h32_lt
h32_lt_irrefl a = ground arith

pub h32_lt_trans : (a b c : H32) → h32_lt a b ≡ true → h32_lt b c ≡ true → h32_lt a c ≡ true
unfolding h32_lt
h32_lt_trans a b c p q = ground arith

pub h32_lt_cotrans : (a b c : H32) → h32_lt a c ≡ true → h32_lt a b ≡ false → h32_lt b c ≡ true
unfolding h32_lt
h32_lt_cotrans a b c p q = ground arith

instance abbrev pub h32_ordered : Ordered H32
h32_ordered = record {
  lt = h32_lt;
  lt_irrefl = h32_lt_irrefl;
  lt_trans = h32_lt_trans;
  lt_cotrans = h32_lt_cotrans;
}

pub seq_lt_irrefl : (a : SequenceHash) → seq_lt a a ≡ false
unfolding seq_lt
seq_lt_irrefl a = ground arith

pub seq_lt_trans :
    (a b c : SequenceHash) → seq_lt a b ≡ true → seq_lt b c ≡ true → seq_lt a c ≡ true
unfolding seq_lt
seq_lt_trans a b c p q = ground arith

pub seq_lt_cotrans :
    (a b c : SequenceHash) → seq_lt a c ≡ true → seq_lt a b ≡ false → seq_lt b c ≡ true
unfolding seq_lt
seq_lt_cotrans a b c p q = ground arith

instance abbrev pub seq_ordered : Ordered SequenceHash
seq_ordered = record {
  lt = seq_lt;
  lt_irrefl = seq_lt_irrefl;
  lt_trans = seq_lt_trans;
  lt_cotrans = seq_lt_cotrans;
}

-- `==` holds of equal hashes and of no others, and `!=` is its negation.
pub seq_eq_lem :
    (a b : SequenceHash) → ((seq_eq a b ≡ true) ↔ (a ≡ b)) × (seq_ne a b ≡ not (seq_eq a b))
unfolding seq_eq seq_ne
seq_eq_lem a b = ((λ h. ground arith, λ h. ground arith), ground arith)

pub h32_eq_lem : (a b : H32) → ((h32_eq a b ≡ true) ↔ (a ≡ b)) × (h32_ne a b ≡ not (h32_eq a b))
unfolding h32_eq h32_ne
h32_eq_lem a b = ((λ h. ground arith, λ h. ground arith), ground arith)

-- As keys of a map, two shard ids are the same exactly when their sequence numbers and the first
-- eight bytes of their hashes are equal, whatever the other 24 bytes are.
pub equivalent-seq_ordered :
    (a b : SequenceHash)
    → (equivalent seq_ordered a b ≡ true) ↔ ((a.seq_no ≡ b.seq_no) × (a.hash.word0 ≡ b.hash.word0))
unfolding seq_lt
equivalent-seq_ordered a b = (λ h. ground arith, λ h. ground arith)
