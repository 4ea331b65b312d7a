-- ===== src/Memory.antt =====
-- src/utils/aligned_buffer.rs: what the buffers hold. A buffer is known by its address; one that was
-- never written holds the zeros of its allocation.
use ubiblk.Prelude.{
  ℕ, ◌≡◌, ◌≢◌, none, some, List, lookup, insert, insert_self, lookup-insert, replicate, arith,
}
use ubiblk.BufferPool.{SharedBuffer}

abbrev pub Memory : Type 0
Memory = List (ℕ × List ℕ)

-- `as_slice`
unfoldable pub contents : Memory → SharedBuffer → List ℕ
contents memory buffer = elim (lookup buffer.ptr memory) [
  | none ↦ replicate buffer.len 0
  | some bytes ↦ bytes
]

-- `as_mut_slice`, written as a whole.
unfoldable pub fill : Memory → SharedBuffer → List ℕ → Memory
fill memory buffer bytes = insert buffer.ptr bytes memory

pub contents-fill :
    (memory : Memory) (buffer : SharedBuffer) (bytes : List ℕ)
    → contents (fill memory buffer bytes) buffer ≡ bytes
unfolding contents fill
contents-fill memory buffer bytes = ground (arith, insert_self buffer.ptr memory bytes)

-- Another buffer keeps what it held.
pub contents-fill_other :
    (memory : Memory) (buffer other : SharedBuffer) (bytes : List ℕ)
    → buffer.ptr ≢ other.ptr
    → contents (fill memory buffer bytes) other ≡ contents memory other
unfolding contents fill
contents-fill_other memory buffer other bytes ne =
    ground (arith, lookup-insert buffer.ptr other.ptr bytes memory)
