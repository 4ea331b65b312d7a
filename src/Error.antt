-- ===== src/Error.antt =====
-- src/error.rs: the crate's error type, as far as the modelled code builds it.
-- A description is the reason for it; error locations and added contexts are left out.
use Prim.Native.Nat.{ℕ}

-- The descriptions of `MetadataError`.
pub data MetadataReason : Type 0 where
  buffer_too_small : MetadataReason
  not_sector_multiple : MetadataReason
  header_crc_mismatch : MetadataReason
  magic_mismatch : MetadataReason
  version_mismatch : MetadataReason
  shift_too_large : MetadataReason
  stripe_count_too_large : MetadataReason
  group_crc_mismatch : ℕ → MetadataReason
  stripe_count_exceeds_u32 : MetadataReason
  archive_metadata_unparsable : MetadataReason
  archive_version_unsupported : ℕ → MetadataReason
  stripe_mapping_rejected : MetadataReason
  hmac_key_not_32_bytes : MetadataReason
  hmac_tag_not_32_bytes : MetadataReason
  remote_metadata_missing : MetadataReason
  remote_metadata_changed : MetadataReason

-- The descriptions of `InvalidParameter`.
pub data ParameterReason : Type 0 where
  source_stripes_exceed_metadata : ParameterReason
  stripe_size_too_large : ParameterReason
  target_too_small : ParameterReason
  stripe_beyond_source : ℕ → ParameterReason
  metadata_file_too_large : ParameterReason
  sector_count_exceeds_u32 : ParameterReason
  metadata_device_too_large : ParameterReason
  metadata_exceeds_device : ParameterReason
  invalid_stripe_index : ℕ → ParameterReason
  key_not_32_bytes : ParameterReason
  xts_key_not_64_bytes : ParameterReason
  kek_missing : ParameterReason
  kek_auth_data_missing : ParameterReason
  kek_cipher_failed : ParameterReason
  ciphertext_too_short : ParameterReason
  decryption_failed : ParameterReason
  encryption_failed : ParameterReason
  invalid_utf8 : ParameterReason
  no_connection : ParameterReason
  remote_stripe_size_differs : ParameterReason
  remote_stripe_count_overflows : ParameterReason
  file_not_sector_multiple : ParameterReason

pub data ProtocolReason : Type 0 where
  metadata_too_small : ProtocolReason
  metadata_too_large : ProtocolReason
  server_too_old : ProtocolReason
  incompatible_version : ℕ → ProtocolReason

-- The descriptions of `ArchiveError`.
pub data ArchiveReason : Type 0 where
  compressed_too_large : ArchiveReason
  not_decompressible : ArchiveReason
  decompressed_not_sector_aligned : ArchiveReason
  size_header_missing : ArchiveReason
  compressed_size_too_large : ArchiveReason
  hmac_init_failed : ArchiveReason
  hmac_mismatch : ArchiveReason
  not_serializable : ArchiveReason
  not_parsable : ArchiveReason
  mapping_version_unsupported : ℕ → ArchiveReason
  mapping_domain_invalid : ArchiveReason
  mapping_not_sector_aligned : ArchiveReason
  mapping_length_too_large : ArchiveReason
  put_timeout : ArchiveReason
  get_timeout : ArchiveReason
  stripe_not_sector_aligned : ℕ → ArchiveReason
  stripe_exceeds_buffer : ℕ → ArchiveReason
  sha256_mismatch : ℕ → ArchiveReason
  stripe_fetch_error : ℕ → ArchiveReason
  stripe_buffer_missing : ℕ → ArchiveReason
  unexpected_upload_completion : ArchiveReason
  hmac_key_generation_failed : ArchiveReason

pub data UbiblkError : Type 0 where
  io_error : UbiblkError
  channel_error : UbiblkError
  invalid_parameter : ParameterReason → UbiblkError
  metadata_error : MetadataReason → UbiblkError
  protocol_error : ProtocolReason → UbiblkError
  missing_stripe_metadata : UbiblkError
  stripe_unavailable_data : ℕ → UbiblkError
  stripe_size_mismatch : ℕ → ℕ → ℕ → UbiblkError
  stripe_fetch_failed : ℕ → UbiblkError
  stripe_fetch_timeout : ℕ → UbiblkError
  remote_status : ℕ → UbiblkError
  archive_error : ArchiveReason → UbiblkError
  crypto_error : UbiblkError
