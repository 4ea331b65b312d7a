-- ===== src/Crypt.antt =====
-- src/crypt/block.rs: `XtsBlockCipher`, AES-XTS over the sectors of a buffer.
-- `Xts` is the package isa-l_crypto: `XTS_AES_256_enc` and `XTS_AES_256_dec` on one sector.
pub mod Loops
pub mod Sectors
pub mod Keys
mod Examples
use ubiblk.Error.{invalid_parameter, key_not_32_bytes, xts_key_not_64_bytes}
use ubiblk.Prelude.{
  ℕ, zero, suc, ◌+◌, ◌*◌, ◌%◌, ◌^◌, not, List, ◌++◌, Result, ok, ◌>>=◌, ◌>>◌, fail_if, assert, leb,
  ◌==◌, length, take, drop, replicate, splice, slice, to_le_bytes,
}
use ubiblk.Metadata.{sector_size}

-- The tweak key, the data key, the tweak and the sector.
pub record Xts : Type 0 where
  pub enc : List ℕ → List ℕ → List ℕ → List ℕ → List ℕ
  pub dec : List ℕ → List ℕ → List ℕ → List ℕ → List ℕ

pub record XtsBlockCipher : Type 0 where
  pub key1 : List ℕ
  pub key2 : List ℕ

-- `ensure_32_bytes`
unfoldable pub ensure_32_bytes : List ℕ → Result (List ℕ)
ensure_32_bytes bytes = do
  fail_if (not (length bytes == 32)) (invalid_parameter key_not_32_bytes)
  ok bytes

unfoldable pub new : List ℕ → List ℕ → Result XtsBlockCipher
unfolding ensure_32_bytes
new key1 key2 = do
  dec_key1 ← ensure_32_bytes key1
  dec_key2 ← ensure_32_bytes key2
  ok (record { key1 = dec_key1; key2 = dec_key2 })

unfoldable pub from_combined_key : List ℕ → Result XtsBlockCipher
from_combined_key combined_key = do
  fail_if (not (length combined_key == 64)) (invalid_parameter xts_key_not_64_bytes)
  ok (record { key1 = take 32 combined_key; key2 = drop 32 combined_key })

-- Eight bytes of zero, and the sector number in little-endian order.
unfoldable pub get_initial_tweak : ℕ → List ℕ
get_initial_tweak sector = splice (replicate 16 0) 8 (to_le_bytes 8 sector)

-- `for i in i..i + n`: sector `start + i` of the buffer is replaced in place. `start + i` wraps in a
-- release build.
unfoldable pub each_sector : (ℕ → List ℕ → List ℕ) → List ℕ → ℕ → ℕ → ℕ → Result (List ℕ)
each_sector f buf start i zero = ok buf
each_sector f buf start i (suc n) = do
  let sector = (start + i) % 2 ^ 64
  assert (leb (i * sector_size + sector_size) (length buf))
  let sector_data = slice buf (i * sector_size) sector_size
  each_sector f (splice buf (i * sector_size) (f sector sector_data)) start (i + 1) n

module _ (X : Xts) where
  unfoldable pub encrypt_sector : XtsBlockCipher → ℕ → List ℕ → List ℕ
  unfolding get_initial_tweak
  encrypt_sector c sector bytes = X.enc c.key2 c.key1 (get_initial_tweak sector) bytes

  unfoldable pub decrypt_sector : XtsBlockCipher → ℕ → List ℕ → List ℕ
  unfolding get_initial_tweak
  decrypt_sector c sector bytes = X.dec c.key2 c.key1 (get_initial_tweak sector) bytes

  -- The new contents of `buf`.
  unfoldable pub encrypt : XtsBlockCipher → List ℕ → ℕ → ℕ → Result (List ℕ)
  unfolding each_sector encrypt_sector
  encrypt c buf sector_start sector_count =
      each_sector (encrypt_sector c) buf sector_start 0 sector_count

  unfoldable pub decrypt : XtsBlockCipher → List ℕ → ℕ → ℕ → Result (List ℕ)
  unfolding each_sector decrypt_sector
  decrypt c buf sector_start sector_count =
      each_sector (decrypt_sector c) buf sector_start 0 sector_count
