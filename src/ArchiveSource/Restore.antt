-- ===== src/ArchiveSource/Restore.antt =====
-- src/stripe_source/archive.rs: what a fetch leaves in a buffer.
use ubiblk.Prelude.{ℕ, ◌-◌, List, ◌++◌, length, replicate}

-- The bytes, and zeros up to the buffer's length.
abbrev pub padded_to : ℕ → List ℕ → List ℕ
padded_to len bytes = bytes ++ replicate (len - length bytes) 0
