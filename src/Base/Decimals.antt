-- ===== src/Base/Decimals.antt =====
-- Numbers printed in decimal, as `std::to_string` and the output streams do.
use Prim.Native.Nat.{ℕ, zero, suc, ◌+◌, ◌/◌, ◌%◌}
use mathlib.Core.List.{◌∷◌}
use hpcore.Base.Tests.{ltb, if◌then◌else◌}
use hpcore.Base.ByteStrings.{Bytes}

-- The decimal digits of a number before a tail, at most as many as the fuel: five are enough for 16
-- bits and twenty for 64.
unfoldable pub digits : ℕ → ℕ → Bytes → Bytes
digits zero n tail = tail
digits (suc fuel) n tail =
    let next = (48 + n % 10) ∷ tail in
    let rest = digits fuel (n / 10) next in if ltb n 10 then next else rest
