-- ===== src/Util/BufferStore/Layout.antt =====
-- Buffers of the store do not share blocks.
use hpcore.Base.{ℕ, ◌+◌, ◌%◌, ◌≤◌, ◌≡◌, Bool, true, false, List, [], ◌∷◌, All, arith, if◌then◌else◌}
use hpcore.Util.BufferStore.{BufferView, BufferStore, write_buf, block_align, purge_range}

-- The store stands at a block boundary.
abbrev pub IsAligned : BufferStore → Type 0
IsAligned store = store.next_write_pos % 4096 ≡ 0

-- The views that successive writes give; a write that fails gives none.
unfoldable pub write_all : List (Bool × ℕ) → BufferStore → List BufferView
write_all [] store = []
write_all ((written, size) ∷ rest) store =
    let (view, after) = write_buf written size store in
    let others = write_all rest after in if written then view ∷ others else others

-- Releasing a buffer releases nothing of the buffers written later.
abbrev pub Apart : List BufferView → Type 0
Apart [] = Unit
Apart (v ∷ vs) = All (λ w. (purge_range v).1 ≤ w.offset) vs × Apart vs

from :
    (ws : List (Bool × ℕ)) (store : BufferStore) (start : ℕ)
    → start ≤ store.next_write_pos
    → All (λ w. start ≤ w.offset) (write_all ws store)
unfolding write_all write_buf
from [] store start h = tt
from ((true, size) ∷ rest) store start h = (
  h,
  from rest (record { next_write_pos = block_align (store.next_write_pos + size) }) start
      (omega (arith, h)),
)
from ((false, size) ∷ rest) store start h = from rest store start h

-- From a store that stands at a block boundary, as a new one does, however many buffers are written
-- and whichever writes fail: the whole blocks that the release of a buffer gives back lie before
-- every buffer that is written later.
pub purges-Apart :
    (ws : List (Bool × ℕ)) (store : BufferStore) → IsAligned store → Apart (write_all ws store)
unfolding write_all write_buf
purges-Apart [] store h = tt
purges-Apart ((true, size) ∷ rest) store h =
    let after : BufferStore = record {
      next_write_pos = block_align (store.next_write_pos + size);
    } in
    (
      from rest after (store.next_write_pos + block_align size) (omega (arith, h)),
      purges-Apart rest after (omega arith),
    )
purges-Apart ((false, size) ∷ rest) store h = purges-Apart rest store h
