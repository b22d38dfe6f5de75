-- ===== src/Util/TtlSet/Reads.antt =====
-- What a lookup in a `ttl_set` answers after each operation.
use hpcore.Base.{
  ℕ, ◌+◌, ◌%◌, ◌<◌, ◌≤◌, ◌^◌, ◌≡◌, Bool, false, Option, none, some, Bytes, bytes_eq, arith, find,
  find-put, find-erase, find-cong, leb, if◌then◌else◌, bytes_keyed,
}
use hpcore.Util.TtlSet.{TtlSet, emplace, erase_key, exists}

-- The answer of a lookup, as a function of the entry alone.
abbrev pub alive : ℕ → Option ℕ → Bool
alive now none = false
alive now (some expires) = leb now expires

pub exists-alive :
    (key : Bytes) (now : ℕ) (s : TtlSet) → (exists key now s).0 ≡ alive now (find key s.ttlmap)
unfolding exists
exists-alive key now s = ground arith

module _ (key other : Bytes) (s : TtlSet) where
  -- After `emplace` at `now` with a time to live, the key is found until `now + ttl` inclusive and
  -- not later, whatever was there before, and every other key is found exactly as before.
  pub exists-emplace :
      (ttl now later : ℕ)
      → now + ttl < 2 ^ 64
      → (exists other later (emplace key ttl now s)).0
        ≡ (if bytes_eq key other then leb later (now + ttl) else (exists other later s).0)
  unfolding emplace
  exists-emplace ttl now later h = ground (
    arith,
    exists-alive other later (emplace key ttl now s),
    exists-alive other later s,
    find-put key other ((now + ttl) % 2 ^ 64) s.ttlmap,
  )

  -- A lookup erases an expired entry; no later lookup, of any key, can tell.
  pub exists-exists :
      (now later : ℕ)
      → now ≤ later
      → (exists other later (exists key now s).1).0 ≡ (exists other later s).0
  unfolding exists
  exists-exists now later h =
      ground (arith, find-erase key other s.ttlmap, find-cong key other s.ttlmap)

  -- `erase` removes its key and no other.
  pub exists-erase_key :
      (later : ℕ)
      → (exists other later (erase_key key s)).0
        ≡ (if bytes_eq key other then false else (exists other later s).0)
  unfolding exists erase_key
  exists-erase_key later =
      ground (arith, find-erase key other s.ttlmap, find-cong key other s.ttlmap)
