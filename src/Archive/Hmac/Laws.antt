-- ===== src/Archive/Hmac/Laws.antt =====
-- src/archive/hmac.rs: the authenticated bytes determine what is authenticated.
use ubiblk.Prelude.{
  ℕ, ◌^◌, ◌<◌, ◌≡◌, ◌≢◌, ◌⊎◌, inl, inr, Bool-cases, false, beq_bytes, refl, sym, ap, ◌∙◌, Option,
  none, some, List, ◌++◌, ok, arith, length, take, drop, take-append, drop-append, to_le_bytes,
  from_le_bytes, from_le_bytes-to_le_bytes, beq_bytes_refl, beq_bytes_eq,
}
use ubiblk.Archive.{ArchiveCompressionAlgorithm, uncompressed, zstd, ArchiveMetadata}
use ubiblk.Archive.Hmac.{
  Mac, key_field, compression_field, metadata_hmac_input, compute_metadata_hmac_tag,
  verify_metadata_hmac_tag,
}

-- The numbers fit into their types.
abbrev pub LevelFits : ArchiveCompressionAlgorithm → Type 0
LevelFits uncompressed = Unit {0}
LevelFits (zstd level) = level < 256 ^ 4

abbrev pub KeyFits : Option (List ℕ) → Type 0
KeyFits none = Unit {0}
KeyFits (some key) = length key < 256 ^ 8

pub record Fits (m : ArchiveMetadata) : Type 0 where
  pub version_fits : m.format_version < 256 ^ 4
  pub sectors_fit : m.stripe_sector_count < 256 ^ 8
  pub level_fits : LevelFits m.compression
  pub key_fits : KeyFits m.encryption_key

-- Two lists that begin with parts of one length.
pub append_parts {ℓ} :
    {A : Type ℓ} (xs ys xs' ys' : List A) (n : ℕ)
    → length xs ≡ n
    → length ys ≡ n
    → xs ++ xs' ≡ ys ++ ys'
    → (xs ≡ ys) × (xs' ≡ ys')
append_parts xs ys xs' ys' n hx hy e = (
  sym (take-append n xs xs' hx) ∙ ap (take n) e ∙ take-append n ys ys' hy,
  sym (drop-append n xs xs' hx) ∙ ap (drop n) e ∙ drop-append n ys ys' hy,
)

pub to_le_bytes_inj :
    (n v w : ℕ) → v < 256 ^ n → w < 256 ^ n → to_le_bytes n v ≡ to_le_bytes n w → v ≡ w
to_le_bytes_inj n v w hv hw e =
    sym (from_le_bytes-to_le_bytes n v hv) ∙ ap from_le_bytes e ∙ from_le_bytes-to_le_bytes n w hw

compression_field_inj :
    (a b : ArchiveCompressionAlgorithm)
    → LevelFits a
    → LevelFits b
    → compression_field a ≡ compression_field b
    → a ≡ b
compression_field_inj uncompressed uncompressed ha hb e = refl
compression_field_inj uncompressed (zstd level) ha hb e = cc
compression_field_inj (zstd level) uncompressed ha hb e = cc
compression_field_inj (zstd v) (zstd w) ha hb e =
    ap zstd (to_le_bytes_inj 4 v w ha hb (ap (drop 1) e))

key_field_inj :
    (a b : Option (List ℕ)) (xs ys : List ℕ)
    → KeyFits a
    → KeyFits b
    → key_field a ++ xs ≡ key_field b ++ ys
    → (a ≡ b) × (xs ≡ ys)
unfolding key_field
key_field_inj none none xs ys ha hb e = (refl, ap (drop 1) e)
key_field_inj none (some key) xs ys ha hb e = ground arith
key_field_inj (some key) none xs ys ha hb e = ground arith
key_field_inj (some k) (some l) xs ys ha hb e =
    let (sizes, rest) =
      append_parts (to_le_bytes 8 (length k)) (to_le_bytes 8 (length l)) (k ++ xs) (l ++ ys) 8 refl
        refl (ap (drop 1) e) in
    let same = to_le_bytes_inj 8 (length k) (length l) ha hb sizes in
    let (keys, others) = append_parts k l xs ys (length l) same refl rest in
    (ap (λ (key : List ℕ). some key) keys, others)

-- Metadata with the same authenticated bytes agree in every field but the wrapped HMAC key and the
-- tag itself, as long as their numbers and key lengths fit into the widths they are written with.
pub metadata_hmac_input_inj :
    (a b : ArchiveMetadata)
    → Fits a
    → Fits b
    → metadata_hmac_input a ≡ metadata_hmac_input b
    → (a.format_version ≡ b.format_version)
      × (a.stripe_sector_count ≡ b.stripe_sector_count)
      × (a.encryption_key ≡ b.encryption_key)
      × (a.compression ≡ b.compression)
unfolding metadata_hmac_input
metadata_hmac_input_inj a b fa fb e =
    let (versions, rest) =
      append_parts (to_le_bytes 4 a.format_version) (to_le_bytes 4 b.format_version) _ _ 4 refl refl
        (ap (drop 24) e) in
    let (counts, fields) =
      append_parts (to_le_bytes 8 a.stripe_sector_count) (to_le_bytes 8 b.stripe_sector_count) _ _ 8
        refl refl rest in
    let (keys, algorithms) =
      key_field_inj a.encryption_key b.encryption_key _ _ fa.key_fits fb.key_fits fields in
    (
      to_le_bytes_inj 4 _ _ fa.version_fits fb.version_fits versions,
      to_le_bytes_inj 8 _ _ fa.sectors_fit fb.sectors_fit counts,
      keys,
      compression_field_inj _ _ fa.level_fits fb.level_fits algorithms,
    )

-- Two inputs that differ and have one tag under the key: what a forger would have to find.
abbrev pub Collision : Mac → List ℕ → List ℕ → List ℕ → Type 0
Collision M key xs ys = (xs ≢ ys) × (M.tag key xs ≡ M.tag key ys)

unequal : (xs ys : List ℕ) → beq_bytes xs ys ≡ false → xs ≢ ys
unequal xs ys differ e = let bad = sym (beq_bytes_refl xs) ∙ ap (beq_bytes xs) e ∙ differ in cc

-- Inputs with one tag are the same, or they are a collision.
pub same_or_Collision :
    (M : Mac) (key xs ys : List ℕ) → M.tag key xs ≡ M.tag key ys → (xs ≡ ys) ⊎ Collision M key xs ys
same_or_Collision M key xs ys tags = elim (Bool-cases (beq_bytes xs ys)) [
  | inl same ↦ inl (beq_bytes_eq xs ys same)
  | inr differ ↦ inr (unequal xs ys differ, tags)
]

accepted :
    (M : Mac) (key tag : List ℕ) (m : ArchiveMetadata)
    → m.metadata_hmac ≡ tag
    → compute_metadata_hmac_tag M key m ≡ ok tag
    → length tag ≡ 32
    → verify_metadata_hmac_tag M key m ≡ ok tt
unfolding compute_metadata_hmac_tag verify_metadata_hmac_tag
accepted M key tag m e signed whole = ground (arith, beq_bytes_refl tag)

same_tag :
    (M : Mac) (key tag : List ℕ) (a b : ArchiveMetadata)
    → compute_metadata_hmac_tag M key a ≡ ok tag
    → b.metadata_hmac ≡ tag
    → verify_metadata_hmac_tag M key b ≡ ok tt
    → M.tag key (metadata_hmac_input b) ≡ M.tag key (metadata_hmac_input a)
unfolding compute_metadata_hmac_tag verify_metadata_hmac_tag
same_tag M key tag a b signed same e =
    ground (arith, beq_bytes_eq b.metadata_hmac (M.tag key (metadata_hmac_input b)))

-- Metadata that was signed is accepted.
pub verify-compute :
    (M : Mac) (key tag : List ℕ) (a : ArchiveMetadata)
    → compute_metadata_hmac_tag M key a ≡ ok tag
    → length tag ≡ 32
    → verify_metadata_hmac_tag M key (record a { metadata_hmac = tag }) ≡ ok tt
unfolding compute_metadata_hmac_tag
verify-compute M key tag a signed whole =
    accepted M key tag (record a { metadata_hmac = tag }) refl signed whole

-- If the sizes of both fit their fields: metadata that is accepted with the tag of some signed metadata
-- agrees with it in the version, the stripe size, the encryption key and the compression, or else
-- the two authenticated inputs differ and have one tag under the key.
pub verify_authentic :
    (M : Mac) (key tag : List ℕ) (a b : ArchiveMetadata)
    → Fits a
    → Fits b
    → compute_metadata_hmac_tag M key a ≡ ok tag
    → b.metadata_hmac ≡ tag
    → verify_metadata_hmac_tag M key b ≡ ok tt
    → ((b.format_version ≡ a.format_version)
        × (b.stripe_sector_count ≡ a.stripe_sector_count)
        × (b.encryption_key ≡ a.encryption_key)
        × (b.compression ≡ a.compression))
      ⊎ Collision M key (metadata_hmac_input b) (metadata_hmac_input a)
verify_authentic M key tag a b fits fits_b signed same e =
    let tags = same_tag M key tag a b signed same e in
    elim (same_or_Collision M key (metadata_hmac_input b) (metadata_hmac_input a) tags) [
      | inl inputs ↦ inl (metadata_hmac_input_inj b a fits_b fits inputs)
      | inr found ↦ inr found
    ]
