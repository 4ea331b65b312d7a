-- ===== src/Archive.antt =====
-- src/archive/mod.rs: the archive's metadata and the interface of the stores that hold its objects.
-- An object's name is a byte string. The clock is a number of polls: `polls` fit before the timeout.
pub mod Compression
pub mod Hmac
pub mod StripeMapping
pub mod FileStore
use ubiblk.Error.{
  metadata_error, archive_version_unsupported, archive_error, put_timeout, get_timeout,
}
use ubiblk.Prelude.{
  ℕ, zero, suc, not, ◌&&◌, Option, none, some, List, [], ◌∷◌, Result, ok, err, fail_if, leb,
  if◌then◌else◌, beq_bytes,
}

abbrev pub archive_format_version : ℕ
archive_format_version = 1

abbrev pub archive_format_version_min : ℕ
archive_format_version_min = 1

abbrev pub archive_format_version_max : ℕ
archive_format_version_max = archive_format_version

-- The level of zstd is an `i32`: here the number below 2 ^ 32 with the same bits.
pub data ArchiveCompressionAlgorithm : Type 0 where
  uncompressed : ArchiveCompressionAlgorithm
  zstd : ℕ → ArchiveCompressionAlgorithm

pub record ArchiveMetadata : Type 0 where
  pub format_version : ℕ
  pub stripe_sector_count : ℕ
  pub encryption_key : Option (List ℕ)
  pub compression : ArchiveCompressionAlgorithm
  pub hmac_key : List ℕ
  pub metadata_hmac : List ℕ

unfoldable pub validate_format_version : ℕ → Result (Unit {0})
validate_format_version version =
    fail_if (not (leb archive_format_version_min version && leb version archive_format_version_max))
      (metadata_error (archive_version_unsupported version))

abbrev pub ObjectName : Type 0
ObjectName = List ℕ

-- The four methods of the trait that a store implements.
pub record ArchiveStore : Type 1 where
  pub State : Type 0
  pub start_put_object : State → ObjectName → List ℕ → State
  pub start_get_object : State → ObjectName → State
  pub poll_puts : State → State × List (ObjectName × Result (Unit {0}))
  pub poll_gets : State → State × List (ObjectName × Result (List ℕ))

-- The first result for the object, if there is one.
unfoldable pub find_result {ℓ} :
    {A : Type ℓ} → ObjectName → List (ObjectName × Result A) → Option (Result A)
find_result name [] = none
find_result name ((obj_name, result) ∷ results) =
    if beq_bytes obj_name name then some result else find_result name results

module _ (Store : ArchiveStore) where
  unfoldable pub wait_for_put : ℕ → Store.State → ObjectName → Store.State × Result (Unit {0})
  unfolding find_result
  wait_for_put zero store name = (store, err (archive_error put_timeout))
  wait_for_put (suc polls) store name =
      let (store', results) = Store.poll_puts store in
      let rest = wait_for_put polls store' name in
      elim (find_result name results) [ none ↦ rest | some result ↦ (store', result) ]

  -- The two synchronous operations, which every store has by default.
  unfoldable pub put_object :
      ℕ → Store.State → ObjectName → List ℕ → Store.State × Result (Unit {0})
  unfolding wait_for_put
  put_object polls store name bytes =
      wait_for_put polls (Store.start_put_object store name bytes) name

  unfoldable pub wait_for_get : ℕ → Store.State → ObjectName → Store.State × Result (List ℕ)
  unfolding find_result
  wait_for_get zero store name = (store, err (archive_error get_timeout))
  wait_for_get (suc polls) store name =
      let (store', results) = Store.poll_gets store in
      let rest = wait_for_get polls store' name in
      elim (find_result name results) [ none ↦ rest | some result ↦ (store', result) ]

  unfoldable pub get_object : ℕ → Store.State → ObjectName → Store.State × Result (List ℕ)
  unfolding wait_for_get
  get_object polls store name = wait_for_get polls (Store.start_get_object store name) name
