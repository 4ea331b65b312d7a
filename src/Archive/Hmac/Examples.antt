-- ===== src/Archive/Hmac/Examples.antt =====
-- src/archive/hmac.rs: a code that tells inputs apart by their length, and tests.
use ubiblk.Prelude.{
  ℕ, ◌≡◌, ◌⊎◌, ◌%◌, length, refl, true, some, List, [], ◌∷◌, ok, err, arith, replicate,
  length-replicate, beq_bytes,
}
use ubiblk.Error.{archive_error, hmac_mismatch, metadata_error, hmac_tag_not_32_bytes}
use ubiblk.Archive.{ArchiveMetadata, zstd}
use ubiblk.Archive.Hmac.{
  Mac, metadata_hmac_input, compute_metadata_hmac_tag, verify_metadata_hmac_tag, verify_hmac_tag,
}
use ubiblk.Archive.Hmac.Laws.{Collision, Fits, verify-compute, verify_authentic}

abbrev metadata : ArchiveMetadata
metadata = record {
  format_version = 1;
  stripe_sector_count = 2048;
  encryption_key = some (5 ∷ 6 ∷ []);
  compression = zstd 3;
  hmac_key = [];
  metadata_hmac = [];
}

-- A code of 32 bytes that many inputs share.
abbrev code : Mac
code = record { takes_key = λ key. true; tag = λ key xs. replicate 32 (length xs % 256) }

abbrev metadata_tag : List ℕ
metadata_tag = code.tag [] (metadata_hmac_input metadata)

fits : Fits metadata
fits = record {
  version_fits = omega arith;
  sectors_fit = omega arith;
  level_fits = omega arith;
  key_fits = omega arith;
}

signed : compute_metadata_hmac_tag code [] metadata ≡ ok metadata_tag
unfolding compute_metadata_hmac_tag
signed = refl

abbrev received : ArchiveMetadata
received = record metadata { metadata_hmac = metadata_tag; hmac_key = 9 ∷ [] }

received-Fits : Fits received
received-Fits = record {
  version_fits = omega arith;
  sectors_fit = omega arith;
  level_fits = omega arith;
  key_fits = omega arith;
}

-- The wrapped key is not signed, since its own tag protects it.
received_accepted : verify_metadata_hmac_tag code [] received ≡ ok tt
unfolding compute_metadata_hmac_tag
received_accepted =
    verify-compute code [] metadata_tag (record received { metadata_hmac = [] }) signed
      (length-replicate {A = ℕ} 32 (length (metadata_hmac_input metadata) % 256))

verify_authentic_example :
    ((received.format_version ≡ 1)
      × (received.stripe_sector_count ≡ 2048)
      × (received.encryption_key ≡ some (5 ∷ 6 ∷ []))
      × (received.compression ≡ zstd 3))
    ⊎ Collision code [] (metadata_hmac_input received) (metadata_hmac_input metadata)
verify_authentic_example =
    verify_authentic code [] metadata_tag metadata received fits received-Fits signed refl
      received_accepted

wrong_tag : verify_hmac_tag code [] (7 ∷ []) (1 ∷ 8 ∷ []) ≡ err (archive_error hmac_mismatch)
unfolding verify_hmac_tag beq_bytes replicate
wrong_tag = refl

short_tag : verify_metadata_hmac_tag code [] metadata ≡ err (metadata_error hmac_tag_not_32_bytes)
unfolding verify_metadata_hmac_tag
short_tag = refl
