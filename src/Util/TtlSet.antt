-- ===== src/Util/TtlSet.antt =====
-- src/util/ttl_set.cpp: a set of strings whose members expire. The clock is an argument of each
-- operation, in milliseconds since the epoch.
pub mod Reads
use hpcore.Base.{
  ℕ, ◌+◌, Bool, true, false, not, Option, none, some, List, [], Bytes, find, put, erase, wrap64,
  ltb, if◌then◌else◌, bytes_keyed,
}

-- Each key with the time at which it expires.
pub record TtlSet : Type 0 where
  pub ttlmap : List (Bytes × ℕ)

abbrev pub empty : TtlSet
empty = record { ttlmap = [] }

unfoldable pub emplace : Bytes → ℕ → ℕ → TtlSet → TtlSet
emplace key ttl_milli now s = record { ttlmap = put key (wrap64 (now + ttl_milli)) s.ttlmap }

unfoldable pub erase_key : Bytes → TtlSet → TtlSet
erase_key key s = record { ttlmap = erase key s.ttlmap }

-- An expired entry is erased by the lookup that meets it.
found : Bytes → ℕ → TtlSet → Option ℕ → Bool × TtlSet
found key now s none = (false, s)
found key now s (some expires) =
    let expired = ltb expires now in
    (not expired, if expired then record { ttlmap = erase key s.ttlmap } else s)

unfoldable pub exists : Bytes → ℕ → TtlSet → Bool × TtlSet
unfolding found
exists key now s = found key now s (find key s.ttlmap)
