-- ===== src/Util/RolloverHashset.antt =====
-- src/util/rollover_hashset.cpp: a set of the most recent hashes, first in first out. The source
-- keeps the hashes in an unordered set, and pointers to its members in a list; a member stays where
-- it is until it is erased, so the list is modelled by the values that it points to.
pub mod Window
use hpcore.Base.{
  ℕ, ◌<◌, ◌==◌, Bool, true, false, ◌++◌, List, [], ◌∷◌, Bytes, elem, discard, length, ltb,
  if◌then◌else◌, bytes_keyed,
}

pub record RolloverHashset : Type 0 where
  pub recent_hashes : List Bytes
  pub recent_hashes_list : List Bytes
  pub maxsize : ℕ

unfoldable pub init : ℕ → RolloverHashset
init maxsize = record {
  recent_hashes = [];
  recent_hashes_list = [];
  maxsize = if maxsize == 0 then 1 else maxsize;
}

-- `erase(*list.front())`, then `list.pop_front()`.
drop_oldest : List Bytes → RolloverHashset → RolloverHashset
drop_oldest [] s = s
drop_oldest (oldest_hash ∷ rest) s = record s {
  recent_hashes = discard oldest_hash s.recent_hashes;
  recent_hashes_list = rest;
}

-- Removes the oldest hash if the list exceeds the maximum size.
trim : RolloverHashset → RolloverHashset
unfolding drop_oldest
trim s =
    if ltb s.maxsize (length s.recent_hashes_list) then drop_oldest s.recent_hashes_list s else s

unfoldable pub try_emplace : Bytes → RolloverHashset → Bool × RolloverHashset
unfolding trim
try_emplace hash s = if elem hash s.recent_hashes then (false, s) else (
  true,
  trim (record s {
    recent_hashes = s.recent_hashes ++ hash ∷ [];
    recent_hashes_list = s.recent_hashes_list ++ hash ∷ [];
  }),
)
