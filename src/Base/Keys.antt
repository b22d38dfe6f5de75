-- ===== src/Base/Keys.antt =====
-- What a container asks of its key type. `Keyed` is the sameness of keys by which `find` and
-- `erase` work; `Ordered` is the strict weak order of a `std::map`, under which two keys are the
-- same when neither is below the other.
use Prim.Native.Nat.{ℕ}
use mathlib.Core.Path.{◌≡◌}
use mathlib.Core.Bool.{Bool, true, false, not, ◌&&◌}
use native.Mathlib.Omega.{arith}
use hpcore.Base.Tests.{ltb, ◌==◌}
use hpcore.Base.ByteStrings.{
  Bytes, bytes_eq, bytes_eq_refl, bytes_eq_cong, bytes_lt, bytes_lt_irrefl, bytes_lt_trans,
  bytes_lt_total, bytes_eq_iff,
}

pub record Keyed {ℓ} (K : Type ℓ) : Type ℓ where
  pub same : K → K → Bool
  pub same_refl : (a : K) → same a a ≡ true
  pub same_cong : (a b c : K) → same a b ≡ true → same a c ≡ same b c

pub record Ordered {ℓ} (K : Type ℓ) : Type ℓ where
  pub lt : K → K → Bool
  pub lt_irrefl : (a : K) → lt a a ≡ false
  pub lt_trans : (a b c : K) → lt a b ≡ true → lt b c ≡ true → lt a c ≡ true
  pub lt_cotrans : (a b c : K) → lt a c ≡ true → lt a b ≡ false → lt b c ≡ true

module _ {ℓ} {K : Type ℓ} where
  pub same_sym : ⦃k : Keyed K⦄ (a b : K) → k.same a b ≡ k.same b a
  same_sym ⦃k⦄ a b =
      ground (arith, k.same_refl a, k.same_refl b, k.same_cong a b a, k.same_cong b a b)

  abbrev pub equivalent : Ordered K → K → K → Bool
  equivalent o a b = not (o.lt a b) && not (o.lt b a)

  pub equivalent_refl : (o : Ordered K) (a : K) → equivalent o a a ≡ true
  equivalent_refl o a = rw (o.lt_irrefl a)

  pub equivalent_cong :
      (o : Ordered K) (a b c : K) → equivalent o a b ≡ true → equivalent o a c ≡ equivalent o b c
  equivalent_cong o a b c h =
      ground (arith, o.lt_cotrans a b c, o.lt_cotrans b a c, o.lt_cotrans c a b, o.lt_cotrans c b a)

  -- A `std::map` looks its keys up by equivalence.
  abbrev pub ordered_keyed : Ordered K → Keyed K
  ordered_keyed o = record {
    same = equivalent o;
    same_refl = equivalent_refl o;
    same_cong = equivalent_cong o;
  }

pub nat_same_refl : (a : ℕ) → (a == a) ≡ true
nat_same_refl a = ground arith

pub nat_same_cong : (a b c : ℕ) → (a == b) ≡ true → (a == c) ≡ (b == c)
nat_same_cong a b c h = ground arith

instance abbrev pub nat_keyed : Keyed ℕ
nat_keyed = record { same = ◌==◌; same_refl = nat_same_refl; same_cong = nat_same_cong }

instance abbrev pub bytes_keyed : Keyed Bytes
bytes_keyed = record { same = bytes_eq; same_refl = bytes_eq_refl; same_cong = bytes_eq_cong }

pub nat_lt_irrefl : (a : ℕ) → ltb a a ≡ false
nat_lt_irrefl a = ground arith

pub nat_lt_trans : (a b c : ℕ) → ltb a b ≡ true → ltb b c ≡ true → ltb a c ≡ true
nat_lt_trans a b c p q = ground arith

pub nat_lt_cotrans : (a b c : ℕ) → ltb a c ≡ true → ltb a b ≡ false → ltb b c ≡ true
nat_lt_cotrans a b c p q = ground arith

instance abbrev pub nat_ordered : Ordered ℕ
nat_ordered = record {
  lt = ltb;
  lt_irrefl = nat_lt_irrefl;
  lt_trans = nat_lt_trans;
  lt_cotrans = nat_lt_cotrans;
}

pub bytes_lt_cotrans :
    (a b c : Bytes) → bytes_lt a c ≡ true → bytes_lt a b ≡ false → bytes_lt b c ≡ true
bytes_lt_cotrans a b c p q = ground (arith, bytes_lt_total a b, bytes_lt_trans b a c)

instance abbrev pub bytes_ordered : Ordered Bytes
bytes_ordered = record {
  lt = bytes_lt;
  lt_irrefl = bytes_lt_irrefl;
  lt_trans = bytes_lt_trans;
  lt_cotrans = bytes_lt_cotrans;
}

-- Strings are the same key of a `std::map` exactly when they are equal.
pub equivalent_bytes : (a b : Bytes) → equivalent bytes_ordered a b ≡ bytes_eq a b
equivalent_bytes a b = ground (
  arith,
  bytes_lt_total a b,
  bytes_eq_iff a b,
  bytes_lt_irrefl a,
  bytes_lt_irrefl b,
  bytes_eq_refl a,
)

-- Of two different strings one comes first.
pub bytes_trichotomy : (a b : Bytes) → bytes_eq a b ≡ false → bytes_lt a b ≡ not (bytes_lt b a)
bytes_trichotomy a b h =
    ground (arith, bytes_lt_total a b, bytes_eq_iff a b, bytes_lt_trans a b a, bytes_lt_irrefl a)
