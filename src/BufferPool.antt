-- ===== src/BufferPool.antt =====
-- src/utils/aligned_buffer_pool.rs: a fixed set of buffers, lent out and taken back.
-- A `SharedBuffer` is a handle: the address that `Arc::ptr_eq` compares, the `id` and the length of
-- the `AlignedBuf` behind it. What a buffer holds is not part of the pool.
pub mod Laws
pub mod Lending
mod Examples
use ubiblk.Prelude.{
  ℕ, zero, suc, ◌+◌, Bool, true, false, not, Option, none, some, List, [], ◌∷◌, ◌++◌, Result, ok,
  ◌>>=◌, ◌>>◌, assert, unwrap, ltb, ◌==◌, length, get_elem?, set, replicate, range_from,
}

pub record SharedBuffer : Type 0 where
  pub ptr : ℕ
  pub id : ℕ
  pub len : ℕ

pub record AlignedBufferPool : Type 0 where
  pub buffers : List SharedBuffer
  pub available_buffers : List ℕ
  pub in_use : List Bool

-- The buffers `index, index + 1, …`, allocated at addresses from `ptr` on.
allocate : ℕ → ℕ → ℕ → ℕ → List SharedBuffer
allocate ptr index zero size = []
allocate ptr index (suc n) size =
    record { ptr = ptr; id = index; len = size } ∷ allocate (ptr + 1) (index + 1) n size

-- `ptr` is the first address of the allocation; the alignment plays no part.
pub new : ℕ → ℕ → ℕ → AlignedBufferPool
unfolding allocate
new ptr count size = record {
  buffers = allocate ptr 0 count size;
  available_buffers = range_from 0 count;
  in_use = replicate count false;
}

unfoldable pub get_buffer : AlignedBufferPool → Result (Option SharedBuffer × AlignedBufferPool)
get_buffer p = elim p.available_buffers [
  | [] ↦ ok (none, p)
  | index ∷ rest ↦ do
    _ ← unwrap (get_elem? p.in_use index)
    buffer ← unwrap (get_elem? p.buffers index)
    ok (some buffer, record p { available_buffers = rest; in_use = set p.in_use index true })
]

unfoldable pub return_buffer : AlignedBufferPool → SharedBuffer → Result AlignedBufferPool
return_buffer p buffer = do
  let index = buffer.id
  assert (ltb index (length p.buffers))
  used ← unwrap (get_elem? p.in_use index)
  assert used
  own ← unwrap (get_elem? p.buffers index)
  assert (buffer.ptr == own.ptr)
  ok (record p {
    available_buffers = p.available_buffers ++ index ∷ [];
    in_use = set p.in_use index false;
  })

pub has_available : AlignedBufferPool → Bool
has_available p = elim p.available_buffers [ [] ↦ false | index ∷ rest ↦ true ]
