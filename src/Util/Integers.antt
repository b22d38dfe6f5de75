-- ===== src/Util/Integers.antt =====
-- src/util/util.cpp: unsigned integers as bytes, the highest byte first. A read past the end of the
-- bytes gives `none`.
use hpcore.Base.{
  ℕ, ◌+◌, ◌*◌, ◌/◌, ◌%◌, ◌^◌, ◌<◌, ◌≡◌, ◌++◌, [], ◌∷◌, Option, none, some, Bytes, arith, ap,
}

unfoldable pub uint16_to_bytes : ℕ → Bytes
uint16_to_bytes x = (x / 2 ^ 8 % 256) ∷ (x % 256) ∷ []

unfoldable pub uint16_from_bytes : Bytes → Option ℕ
uint16_from_bytes [] = none
uint16_from_bytes (a ∷ []) = none
uint16_from_bytes (a ∷ b ∷ tail) = some ((a * 2 ^ 8 + b) % 2 ^ 16)

unfoldable pub uint32_to_bytes : ℕ → Bytes
uint32_to_bytes x = (x / 2 ^ 24 % 256) ∷ (x / 2 ^ 16 % 256) ∷ (x / 2 ^ 8 % 256) ∷ (x % 256) ∷ []

unfoldable pub uint32_from_bytes : Bytes → Option ℕ
uint32_from_bytes (a ∷ b ∷ c ∷ d ∷ tail) = some ((a * 2 ^ 24 + b * 2 ^ 16 + c * 2 ^ 8 + d) % 2 ^ 32)
uint32_from_bytes tail = none

unfoldable pub uint64_to_bytes : ℕ → Bytes
uint64_to_bytes x =
    (x / 2 ^ 56 % 256)
    ∷ (x / 2 ^ 48 % 256)
    ∷ (x / 2 ^ 40 % 256)
    ∷ (x / 2 ^ 32 % 256)
    ∷ (x / 2 ^ 24 % 256)
    ∷ (x / 2 ^ 16 % 256)
    ∷ (x / 2 ^ 8 % 256)
    ∷ (x % 256)
    ∷ []

unfoldable pub uint64_from_bytes : Bytes → Option ℕ
uint64_from_bytes (a ∷ b ∷ c ∷ d ∷ e ∷ f ∷ g ∷ h ∷ tail) = some (
    (a * 2 ^ 56 + b * 2 ^ 48 + c * 2 ^ 40 + d * 2 ^ 32 + e * 2 ^ 24 + f * 2 ^ 16 + g * 2 ^ 8 + h)
    % 2 ^ 64)
uint64_from_bytes tail = none

-- A 16-bit number that is written is read again, whatever follows it.
pub uint16_from_bytes-uint16_to_bytes :
    (x : ℕ) (rest : Bytes) → x < 2 ^ 16 → uint16_from_bytes (uint16_to_bytes x ++ rest) ≡ some x
unfolding uint16_to_bytes uint16_from_bytes
uint16_from_bytes-uint16_to_bytes x rest small = ap some (omega (arith, small))

-- A 32-bit number that is written is read again, whatever follows it.
pub uint32_from_bytes-uint32_to_bytes :
    (x : ℕ) (rest : Bytes) → x < 2 ^ 32 → uint32_from_bytes (uint32_to_bytes x ++ rest) ≡ some x
unfolding uint32_to_bytes uint32_from_bytes
uint32_from_bytes-uint32_to_bytes x rest small = ap some (omega (arith, small))

-- A 64-bit number that is written is read again, whatever follows it.
pub uint64_from_bytes-uint64_to_bytes :
    (x : ℕ) (rest : Bytes) → x < 2 ^ 64 → uint64_from_bytes (uint64_to_bytes x ++ rest) ≡ some x
unfolding uint64_to_bytes uint64_from_bytes
uint64_from_bytes-uint64_to_bytes x rest small = ap some (omega (arith, small))
