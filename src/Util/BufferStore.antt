-- ===== src/Util/BufferStore.antt =====
-- src/util/buffer_store.cpp: where buffers are written in the store. The bytes are in a memory file
-- of the operating system: `pwrite` is an argument that tells whether all of the buffer was written.
-- The write position is a 64-bit file offset, far above what the store holds, and does not wrap here.
pub mod Layout
use hpcore.Base.{ℕ, ◌+◌, ◌*◌, ◌/◌, Bool, true, false, not, ◌&&◌, ◌==◌}

-- A place in the buffer store.
pub record BufferView : Type 0 where
  pub offset : ℕ
  pub size : ℕ

-- BLOCK_ALIGN with the block size of 4096.
abbrev pub block_align : ℕ → ℕ
block_align x = (x + 4095) / 4096 * 4096

pub record BufferStore : Type 0 where
  pub next_write_pos : ℕ

unfoldable pub write_buf : Bool → ℕ → BufferStore → BufferView × BufferStore
write_buf false size store = (record { offset = 0; size = 0 }, store)
write_buf true size store = (
  record { offset = store.next_write_pos; size = size },
  record { next_write_pos = block_align (store.next_write_pos + size) },
)

-- The range that `purge` releases: its first byte and the first byte behind it.
abbrev pub purge_range : BufferView → ℕ × ℕ
purge_range view = (view.offset, view.offset + block_align view.size)
