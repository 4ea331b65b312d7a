-- ===== src/Archive/Compression/Examples.antt =====
-- src/archive/compression.rs: a package that stores the level before the bytes, and tests.
use ubiblk.Prelude.{
  ℕ, ◌%◌, ◌≡◌, refl, Option, none, some, List, [], ◌∷◌, ok, err, arith, length, replicate,
}
use ubiblk.Error.{archive_error, compressed_size_too_large, size_header_missing}
use ubiblk.Archive.{zstd}
use ubiblk.Archive.Compression.{
  Zstd, compress, decompress, with_size_header_and_padding, compressed_payload,
}
use ubiblk.Archive.Compression.Laws.{IsLossless, in_u32, decompress-compress}

abbrev without_level : List ℕ → Option (List ℕ)
without_level [] = none
without_level (level ∷ bytes) = some bytes

abbrev prefixes : Zstd
prefixes = record { encode_all = λ bytes level. some (level ∷ bytes); decode_all = without_level }

prefixes-IsLossless : IsLossless prefixes
prefixes-IsLossless = record { decode-encode = λ bytes level compressed e. ground arith }

abbrev sevens : List ℕ
sevens = replicate 512 7

decompress-compress_example :
    (stored : List ℕ) × (compress prefixes (zstd 3) sevens ≡ ok stored)
    × (length stored % 512 ≡ 0)
    × (decompress prefixes (zstd 3) stored ≡ ok sevens)
unfolding replicate
decompress-compress_example =
    decompress-compress prefixes (zstd 3) sevens prefixes-IsLossless refl
      (in_u32 (3 ∷ sevens) refl (omega arith))

header_and_padding :
    with_size_header_and_padding (7 ∷ 8 ∷ []) ≡ ok (2 ∷ 0 ∷ 0 ∷ 0 ∷ 7 ∷ 8 ∷ replicate 506 0)
unfolding with_size_header_and_padding replicate
header_and_padding = refl

bad_headers :
    (compressed_payload (1 ∷ 0 ∷ 0 ∷ []) ≡ err (archive_error size_header_missing))
    × (compressed_payload (3 ∷ 0 ∷ 0 ∷ 0 ∷ 7 ∷ 8 ∷ [])
        ≡ err (archive_error compressed_size_too_large))
unfolding compressed_payload
bad_headers = (refl, refl)
