-- ===== src/BufferPool/Lending.antt =====
-- src/utils/aligned_buffer_pool.rs: lending and returning, for the holders of the other buffers.
use ubiblk.Prelude.{
  ℕ, zero, suc, ◌+◌, ◌≡◌, ◌≢◌, refl, replicate, sym, ap, ◌∙◌, Bool, true, false, some, List, [],
  ◌∷◌, ok, get_elem?, set, arith, ◌⊎◌, inl, inr, get_elem?-set_ne, contains, contains-head,
}
use ubiblk.BufferPool.{
  new, allocate, SharedBuffer, AlignedBufferPool, get_buffer, return_buffer, has_available,
}
use ubiblk.BufferPool.Laws.{
  IsValid, IsLent, get_buffer_lem, get_buffer-IsLent, return_buffer_lem, returned, is_free,
  is_free-get,
}

abbrev pub InUse : AlignedBufferPool → ℕ → Type 0
InUse p i = get_elem? p.in_use i ≡ some true

-- A buffer is lent by `p` and from then on held, by `q`.
pub record Lends (p q : AlignedBufferPool) (b : SharedBuffer) : Type 0 where
  pub valid : IsValid q
  pub lent : IsLent q b
  pub same_buffers : q.buffers ≡ p.buffers
  pub keeps : (other : SharedBuffer) → IsLent p other → IsLent q other
  pub differs : (other : SharedBuffer) → IsLent p other → other.id ≢ b.id
  pub only : (i : ℕ) → InUse q i → (i ≡ b.id) ⊎ InUse p i

-- A buffer is taken back: `q` no longer counts it as lent.
pub record TakesBack (p q : AlignedBufferPool) (b : SharedBuffer) : Type 0 where
  pub valid : IsValid q
  pub same_buffers : q.buffers ≡ p.buffers
  pub keeps : (other : SharedBuffer) → IsLent p other → other.id ≢ b.id → IsLent q other
  pub only : (i : ℕ) → InUse q i → InUse p i × (i ≢ b.id)

keeps_true :
    (xs : List Bool) (i j : ℕ)
    → get_elem? xs j ≡ some true
    → get_elem? (set xs i true) j ≡ some true
keeps_true [] i j e = e
keeps_true (x ∷ xs) zero zero e = refl
keeps_true (x ∷ xs) zero (suc j) e = e
keeps_true (x ∷ xs) (suc i) zero e = e
keeps_true (x ∷ xs) (suc i) (suc j) e = keeps_true xs i j e

only_true :
    (xs : List Bool) (i j : ℕ)
    → get_elem? (set xs i true) j ≡ some true
    → (j ≡ i) ⊎ (get_elem? xs j ≡ some true)
only_true [] i j e = inr e
only_true (x ∷ xs) zero zero e = inl refl
only_true (x ∷ xs) zero (suc j) e = inr e
only_true (x ∷ xs) (suc i) zero e = inr e
only_true (x ∷ xs) (suc i) (suc j) e = ground (arith, only_true xs i j e)

only_false :
    (xs : List Bool) (i j : ℕ)
    → get_elem? (set xs i false) j ≡ some true
    → (get_elem? xs j ≡ some true) × (j ≢ i)
only_false [] i j e = cc
only_false (x ∷ xs) zero zero e = cc
only_false (x ∷ xs) zero (suc j) e = (e, λ h. cc)
only_false (x ∷ xs) (suc i) zero e = (e, λ h. cc)
only_false (x ∷ xs) (suc i) (suc j) e =
    let (h, ne) = only_false xs i j e in (h, λ same. ne (omega arith))

unused_at :
    (p : AlignedBufferPool) (i : ℕ) (rest : List ℕ)
    → IsValid p
    → p.available_buffers ≡ i ∷ rest
    → get_elem? p.in_use i ≢ some true
unused_at p i rest v e used =
    let free : is_free p.in_use i ≡ true =
      sym (v.free i) ∙ ap (contains i) e ∙ contains-head i rest in
    cc (used, is_free-get p.in_use i free)

-- With a buffer available, `get_buffer` lends one that nobody holds.
pub get_buffer-Lends :
    (p : AlignedBufferPool)
    → IsValid p
    → has_available p ≡ true
    → (b : SharedBuffer) × (q : AlignedBufferPool) × (get_buffer p ≡ ok (some b, q)) × Lends p q b
unfolding has_available
get_buffer-Lends p v some_left = elim (get_buffer_lem p v) [
  | inl (empty, _) ↦ absurd (ground arith)
  | inr (b, q, eq, front, own, same, used, valid) ↦
      let unused = unused_at p b.id q.available_buffers v front in
      (
        b,
        q,
        eq,
        record {
          valid = valid;
          lent = (get_buffer-IsLent p q b v eq).0;
          same_buffers = same;
          keeps = λ other h. (
            ap (λ (t : List SharedBuffer). get_elem? t other.id) same ∙ h.0,
            ap (λ (t : List Bool). get_elem? t other.id) used
                ∙ keeps_true p.in_use b.id other.id h.1,
          );
          differs = λ other h e. unused (ap (get_elem? p.in_use) (sym e) ∙ h.1);
          only = λ i h.
              only_true p.in_use b.id i (ap (λ (t : List Bool). get_elem? t i) (sym used) ∙ h);
        },
      )
]

pub return_buffer-TakesBack :
    (p : AlignedBufferPool) (b : SharedBuffer)
    → IsValid p
    → IsLent p b
    → (q : AlignedBufferPool) × (return_buffer p b ≡ ok q) × TakesBack p q b
return_buffer-TakesBack p b v lent =
    let (eq, valid) = return_buffer_lem p b v lent in (returned p b, eq, takes valid)
  where
    takes : IsValid (returned p b) → TakesBack p (returned p b) b
    takes valid =
        unfold returned in
        record {
          valid = valid;
          same_buffers = refl;
          keeps = λ other h ne.
              (h.0, get_elem?-set_ne p.in_use b.id other.id false (λ e. ne (sym e)) ∙ h.1);
          only = λ i h. only_false p.in_use b.id i h;
        }

-- A new pool: buffers of the size asked for, none of them lent.
allocate-len :
    (ptr index n size i : ℕ) (b : SharedBuffer)
    → get_elem? (allocate ptr index n size) i ≡ some b
    → b.len ≡ size
unfolding allocate
allocate-len ptr index zero size i b e = cc
allocate-len ptr index (suc n) size zero b e = cc
allocate-len ptr index (suc n) size (suc i) b e = allocate-len (ptr + 1) (index + 1) n size i b e

none_in_use : (n i : ℕ) → get_elem? (replicate n false) i ≢ some true
unfolding replicate
none_in_use zero i e = cc
none_in_use (suc n) zero e = cc
none_in_use (suc n) (suc i) e = none_in_use n i e

pub new_buffers_len :
    (ptr i : ℕ) (b : SharedBuffer) → get_elem? (new ptr 16 512).buffers i ≡ some b → b.len ≡ 512
unfolding new
new_buffers_len ptr i b e = allocate-len ptr 0 16 512 i b e

pub new_unused : (ptr i : ℕ) → InUse (new ptr 16 512) i → ⊥
unfolding new
new_unused ptr i used = none_in_use 16 i used
