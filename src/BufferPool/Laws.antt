-- ===== src/BufferPool/Laws.antt =====
-- The pool's invariant, and that every operation keeps it.
use ubiblk.Prelude.{
  ℕ, zero, suc, ◌+◌, ◌<◌, ◌≡◌, refl, Bool, true, false, not, Option, none, some, List, [], ◌∷◌,
  ◌++◌, Result, ok, length, get_elem?, set, replicate, arith, contains, NoDup, ltb, ◌==◌,
  if◌then◌else◌, length-replicate, length-set, NoDup-range_from, contains-range_from,
  get_elem?-total, get_elem?-lt, ap, subst, ◌∙◌, contains-head, contains-append, NoDup-push, panic,
  get_elem?-set_self, ◌⊎◌, inl, inr,
}
use ubiblk.BufferPool.{SharedBuffer, AlignedBufferPool, new, get_buffer, return_buffer, allocate}

-- Is this index one of a buffer that is not lent out?
abbrev pub is_free : List Bool → ℕ → Bool
is_free [] i = false
is_free (b ∷ bs) zero = not b
is_free (b ∷ bs) (suc i) = is_free bs i

-- The free list holds the indices that are not in use, once each; a buffer's id is its index.
pub record IsValid (p : AlignedBufferPool) : Type 0 where
  pub sized : length p.in_use ≡ length p.buffers
  pub distinct : NoDup p.available_buffers
  pub free : (i : ℕ) → contains i p.available_buffers ≡ is_free p.in_use i
  pub numbered : (i : ℕ) (b : SharedBuffer) → get_elem? p.buffers i ≡ some b → b.id ≡ i

length-allocate : (ptr index n size : ℕ) → length (allocate ptr index n size) ≡ n
unfolding allocate
length-allocate ptr index zero size = refl
length-allocate ptr index (suc n) size = omega (arith, length-allocate (ptr + 1) (index + 1) n size)

allocate-numbered :
    (ptr index n size i : ℕ) (b : SharedBuffer)
    → get_elem? (allocate ptr index n size) i ≡ some b
    → b.id ≡ index + i
unfolding allocate
allocate-numbered ptr index zero size i b e = cc
allocate-numbered ptr index (suc n) size zero b e = ground arith
allocate-numbered ptr index (suc n) size (suc i) b e =
    ground (arith, allocate-numbered (ptr + 1) (index + 1) n size i b)

is_free-replicate : (n i : ℕ) → is_free (replicate n false) i ≡ ltb i n
unfolding replicate
is_free-replicate zero i = ground arith
is_free-replicate (suc n) zero = ground arith
is_free-replicate (suc n) (suc i) = ground (arith, is_free-replicate n i)

is_free-set :
    (us : List Bool) (i j : ℕ) (u : Bool)
    → i < length us
    → is_free (set us i u) j ≡ (if i == j then not u else is_free us j)
is_free-set [] i j u h = absurd (omega arith)
is_free-set (b ∷ us) zero zero u h = ground arith
is_free-set (b ∷ us) zero (suc j) u h = ground arith
is_free-set (b ∷ us) (suc i) zero u h = ground arith
is_free-set (b ∷ us) (suc i) (suc j) u h = ground (arith, is_free-set us i j u)

pub is_free-get : (us : List Bool) (i : ℕ) → is_free us i ≡ true → get_elem? us i ≡ some false
is_free-get [] i h = cc
is_free-get (false ∷ us) zero h = refl
is_free-get (true ∷ us) zero h = cc
is_free-get (b ∷ us) (suc i) h = is_free-get us i h

is_free-used : (us : List Bool) (i : ℕ) → get_elem? us i ≡ some true → is_free us i ≡ false
is_free-used [] i h = refl
is_free-used (b ∷ us) zero h = ground arith
is_free-used (b ∷ us) (suc i) h = is_free-used us i h

-- A new pool has every buffer free.
pub new-IsValid : (ptr count size : ℕ) → IsValid (new ptr count size)
unfolding new
new-IsValid ptr count size = record {
  sized = omega (arith, length-replicate count false, length-allocate ptr 0 count size);
  distinct = NoDup-range_from 0 count;
  free = λ i. ground (arith, contains-range_from i 0 count, is_free-replicate count i);
  numbered = λ i b e. omega (arith, allocate-numbered ptr 0 count size i b e);
}

-- What `get_buffer` does: with nothing free it changes nothing; else it lends a free buffer.
abbrev pub Gets : AlignedBufferPool → Result (Option SharedBuffer × AlignedBufferPool) → Type 0
Gets p r =
    ((p.available_buffers ≡ []) × (r ≡ ok (none, p)))
    ⊎ ((b : SharedBuffer) × (q : AlignedBufferPool) × (r ≡ ok (some b, q))
        × (p.available_buffers ≡ b.id ∷ q.available_buffers)
        × (get_elem? p.buffers b.id ≡ some b)
        × (q.buffers ≡ p.buffers)
        × (q.in_use ≡ set p.in_use b.id true)
        × IsValid q)

lend-IsValid :
    (p : AlignedBufferPool) (index : ℕ) (rest : List ℕ)
    → p.available_buffers ≡ index ∷ rest
    → index < length p.in_use
    → IsValid p
    → IsValid (record p { available_buffers = rest; in_use = set p.in_use index true })
unfolding contains
lend-IsValid p index rest e lt v = record {
  sized = omega (arith, length-set p.in_use index true, v.sized);
  distinct = (subst NoDup e v.distinct).1;
  free = λ i. ground (
    arith,
    is_free-set p.in_use index i true lt,
    v.free i,
    subst NoDup e v.distinct,
    ap (contains i) e,
  );
  numbered = v.numbered;
}

get_buffer_on :
    (p : AlignedBufferPool) (xs : List ℕ)
    → p.available_buffers ≡ xs
    → IsValid p
    → Gets p (get_buffer p)
unfolding get_buffer
get_buffer_on p [] e v = inl (e, ground arith)
get_buffer_on p (index ∷ rest) e v =
    let (b, eb) = get_elem?-total p.buffers index (omega (arith, v.sized, in_range)) in
    let id_eq = v.numbered index b eb in
    inr (
      b,
      record p { available_buffers = rest; in_use = set p.in_use index true },
      ground (arith, unused, eb),
      ground (arith, id_eq),
      ground (arith, id_eq, eb),
      refl,
      ground (arith, id_eq),
      lend-IsValid p index rest e in_range v,
    )
  where
    unused : get_elem? p.in_use index ≡ some false
    unused =
        is_free-get p.in_use index
          (ground (arith, v.free index, ap (contains index) e, contains-head index rest))

    in_range : index < length p.in_use
    in_range = get_elem?-lt p.in_use index false unused

-- A valid pool never panics on `get_buffer`, and stays valid.
pub get_buffer_lem : (p : AlignedBufferPool) → IsValid p → Gets p (get_buffer p)
get_buffer_lem p v = get_buffer_on p p.available_buffers refl v

-- A buffer of the pool that is lent out.
abbrev pub IsLent : AlignedBufferPool → SharedBuffer → Type 0
IsLent p b = (get_elem? p.buffers b.id ≡ some b) × (get_elem? p.in_use b.id ≡ some true)

unfoldable pub returned : AlignedBufferPool → SharedBuffer → AlignedBufferPool
returned p b = record p {
  available_buffers = p.available_buffers ++ b.id ∷ [];
  in_use = set p.in_use b.id false;
}

returned-IsValid :
    (p : AlignedBufferPool) (b : SharedBuffer) → IsLent p b → IsValid p → IsValid (returned p b)
unfolding contains returned
returned-IsValid p b lent v = record {
  sized = omega (arith, length-set p.in_use b.id false, v.sized);
  distinct = NoDup-push b.id p.available_buffers (v.free b.id ∙ used) v.distinct;
  free = λ i. ground (
    arith,
    is_free-set p.in_use b.id i false (get_elem?-lt p.in_use b.id true lent.1),
    v.free i,
    contains-append i p.available_buffers (b.id ∷ []),
  );
  numbered = v.numbered;
}
  where
    used : is_free p.in_use b.id ≡ false
    used = is_free-used p.in_use b.id lent.1

-- `return_buffer` takes back a buffer of the pool that is lent out: it does not panic, the pool
-- stays valid, and the buffer goes to the end of the free list.
pub return_buffer_lem :
    (p : AlignedBufferPool) (b : SharedBuffer)
    → IsValid p
    → IsLent p b
    → (return_buffer p b ≡ ok (returned p b)) × IsValid (returned p b)
unfolding return_buffer returned
return_buffer_lem p b v lent =
    (ground (arith, lent, get_elem?-lt p.buffers b.id b lent.0), returned-IsValid p b lent v)

pub get_buffer-IsLent :
    (p q : AlignedBufferPool) (b : SharedBuffer)
    → IsValid p
    → get_buffer p ≡ ok (some b, q)
    → IsLent q b × IsValid q
get_buffer-IsLent p q b v e = elim (get_buffer_lem p v) [
  | inl (_, none_left) ↦ cc
  | inr (b', q', eq, front, own, same, used, valid) ↦
      let eb : b' ≡ b = cc in
      let eq' : q' ≡ q = cc in
      let in_range : b'.id < length p.in_use =
        omega (arith, v.sized, get_elem?-lt p.buffers b'.id b' own) in
      ((cc, cc (get_elem?-set_self p.in_use b'.id true in_range)), subst IsValid eq' valid)
]

returned_panics :
    (p : AlignedBufferPool) (b : SharedBuffer) → IsLent p b → return_buffer (returned p b) b ≡ panic
unfolding return_buffer returned
returned_panics p b lent = ground (
  arith,
  lent,
  get_elem?-lt p.buffers b.id b lent.0,
  get_elem?-set_self p.in_use b.id false (get_elem?-lt p.in_use b.id true lent.1),
)

-- A buffer that was just obtained can be given back; after that a second return of it panics.
pub return_buffer-get_buffer :
    (p q : AlignedBufferPool) (b : SharedBuffer)
    → IsValid p
    → get_buffer p ≡ ok (some b, q)
    → (r : AlignedBufferPool) × (return_buffer q b ≡ ok r) × IsValid r × (return_buffer r b ≡ panic)
return_buffer-get_buffer p q b v e =
    let (lent, valid) = get_buffer-IsLent p q b v e in
    let (back, still) = return_buffer_lem q b valid lent in
    (returned q b, back, still, returned_panics q b lent)
