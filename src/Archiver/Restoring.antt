-- ===== src/Archiver/Restoring.antt =====
-- src/archive/archiver.rs and src/stripe_source/archive.rs: what the one stores, the other restores.
use ubiblk.Prelude.{
  ℕ, ◌*◌, ◌/◌, ◌%◌, ◌^◌, ◌≤◌, ◌≡◌, refl, sym, ap, ◌∙◌, subst, Option, none, some, List, ok, >>=_ok,
  fail_if_ok, assert_ok, leb, arith, ltb, length, beq_bytes_refl,
}
use ubiblk.BufferPool.{SharedBuffer}
use ubiblk.Memory.{Memory, contents, fill, contents-fill}
use ubiblk.Metadata.{UbiMetadata, stripe_sector_count}
use ubiblk.Crypt.{Xts, XtsBlockCipher, decrypt}
use ubiblk.Crypt.Sectors.{decrypt-encrypt}
use ubiblk.Crypt.Loops.{IsXts}
use ubiblk.Archive.{ArchiveStore}
use ubiblk.Archive.Compression.{Zstd, compress}
use ubiblk.Archive.Compression.Laws.{IsLossless, Fits, decompress-compress}
use ubiblk.ArchiveSource.{ArchiveStripeSource}
use ubiblk.ArchiveSource.Operations.{maybe_decrypt, verify_stripe_data, finish_stripe_fetch}
use ubiblk.ArchiveSource.Restore.{padded_to}
use ubiblk.Archiver.{stripe_offset, maybe_encrypt}

module _ (Store : ArchiveStore) (X : Xts) (Z : Zstd) (sha256 hex_encode : List ℕ → List ℕ) where
  -- What is encrypted for the archive is decrypted when it is fetched.
  maybe_decrypt-maybe_encrypt :
      (cipher : Option XtsBlockCipher) (metadata : UbiMetadata) (count stripe_id : ℕ)
      (packed : List ℕ)
      → IsXts X
      → count ≡ stripe_sector_count metadata
      → length packed % 512 ≡ 0
      → (object : List ℕ) × (maybe_encrypt X cipher metadata stripe_id packed ≡ ok object)
        × (maybe_decrypt Store X Z sha256 hex_encode cipher count object stripe_id ≡ ok packed)
  unfolding maybe_encrypt maybe_decrypt stripe_offset
  maybe_decrypt-maybe_encrypt none metadata count stripe_id packed law same whole =
      (packed, ground arith, refl)
  maybe_decrypt-maybe_encrypt (some cipher) metadata count stripe_id packed law same whole =
      let offset = stripe_id * stripe_sector_count metadata % 2 ^ 64 in
      let (object, ran, len, back) =
        decrypt-encrypt X law cipher packed offset (length packed / 512) (omega arith) in
      (
        object,
        ground arith,
        fail_if_ok _ _ _ (ground arith)
            ∙ subst
                (λ (k : ℕ).
                  decrypt X cipher object (stripe_id * k % 2 ^ 64) (length object / 512)
                  ≡ ok packed)
                (sym same) (ap (λ (n : ℕ). decrypt X cipher object offset (n / 512)) len ∙ back),
      )

  -- A stripe of whole sectors that fits the buffer, compressed and encrypted by the archiver under the
  -- settings of the stripe source, gives an object that the source accepts under the object's own
  -- hash. It leaves in the buffer the stripe's bytes, with zeros behind.
  pub finish_stripe_fetch-compress :
      (s : ArchiveStripeSource Store) (metadata : UbiMetadata) (stripe_id : ℕ)
      (buffer : SharedBuffer) (bytes : List ℕ)
      → IsXts X
      → IsLossless Z
      → s.stripe_sector_count ≡ stripe_sector_count metadata
      → length bytes % 512 ≡ 0
      → length bytes ≤ buffer.len
      → Fits Z bytes s.compression
      → (packed : List ℕ) × (object : List ℕ) × (memory : Memory) × (compress Z s.compression bytes
          ≡ ok packed)
        × (maybe_encrypt X s.xts_cipher metadata stripe_id packed ≡ ok object)
        × (finish_stripe_fetch Store X Z sha256 hex_encode s stripe_id buffer object (sha256 object)
            ≡ ok memory)
        × (contents memory buffer ≡ padded_to buffer.len bytes)
  unfolding finish_stripe_fetch verify_stripe_data
  finish_stripe_fetch-compress s metadata stripe_id buffer bytes law lossless count whole fits
        packs =
      let (packed, ran, sectors, out) =
        decompress-compress Z s.compression bytes lossless whole packs in
      let (object, sealed, opened) =
        maybe_decrypt-maybe_encrypt s.xts_cipher metadata s.stripe_sector_count stripe_id packed law
          count sectors in
      (
        packed,
        object,
        fill s.memory buffer (padded_to buffer.len bytes),
        ran,
        sealed,
        fail_if_ok _ _ _ (ground (arith, beq_bytes_refl (sha256 object)))
            ∙ >>=_ok _ _ packed opened
            ∙ >>=_ok _ _ bytes out
            ∙ fail_if_ok (ltb buffer.len (length bytes)) _ _ (ground arith)
            ∙ assert_ok (leb (length bytes) buffer.len) _ (ground arith),
        contents-fill s.memory buffer (padded_to buffer.len bytes),
      )
