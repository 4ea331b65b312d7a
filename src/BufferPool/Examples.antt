-- ===== src/BufferPool/Examples.antt =====
-- src/utils/aligned_buffer_pool.rs: runs of the pool.
use ubiblk.Prelude.{◌≡◌, refl, true, false, [], ◌∷◌, some, ok, panic, replicate}
use ubiblk.BufferPool.{SharedBuffer, AlignedBufferPool, allocate, new, get_buffer, return_buffer}
use ubiblk.BufferPool.Laws.{IsValid, Gets, new-IsValid, get_buffer_lem, return_buffer-get_buffer}

abbrev first : SharedBuffer
first = record { ptr = 100; id = 0; len = 512 }

abbrev second : SharedBuffer
second = record { ptr = 101; id = 1; len = 512 }

abbrev one_lent : AlignedBufferPool
one_lent = record {
  buffers = first ∷ second ∷ [];
  available_buffers = 1 ∷ [];
  in_use = true ∷ false ∷ [];
}

new_runs :
    new 100 2 512 ≡ record one_lent { available_buffers = 0 ∷ 1 ∷ []; in_use = false ∷ false ∷ [] }
unfolding new allocate replicate
new_runs = refl

get_buffer_runs : get_buffer (new 100 2 512) ≡ ok (some first, one_lent)
unfolding new allocate replicate get_buffer
get_buffer_runs = refl

return_buffer_runs : return_buffer one_lent second ≡ panic
unfolding return_buffer
return_buffer_runs = refl

new-IsValid_example : IsValid (new 100 2 512)
new-IsValid_example = new-IsValid 100 2 512

get_buffer_example : Gets (new 100 2 512) (get_buffer (new 100 2 512))
get_buffer_example = get_buffer_lem (new 100 2 512) (new-IsValid 100 2 512)

return_buffer-get_buffer_example :
    (r : AlignedBufferPool) × (return_buffer one_lent first ≡ ok r)
    × IsValid r
    × (return_buffer r first ≡ panic)
return_buffer-get_buffer_example =
    return_buffer-get_buffer (new 100 2 512) one_lent first (new-IsValid 100 2 512) get_buffer_runs
