-- ===== src/Archive/FileStore.antt =====
-- src/archive/fs_store.rs: a store that keeps every object in a file below a base path.
-- `FileSystem` is what the system does: a path with its operations, and files in a state of its own.
pub mod Laws
mod Examples
use ubiblk.Error.{io_error}
use ubiblk.Prelude.{Bool, true, false, Option, none, some, List, [], ◌∷◌, ◌++◌, Result, ok, err, ℕ}
use ubiblk.Archive.{ObjectName, ArchiveStore}

-- An operation that fails answers `false`, or `none`.
pub record FileSystem : Type 1 where
  pub State : Type 0
  pub PathBuf : Type 0
  pub push : PathBuf → ObjectName → PathBuf
  pub parent : PathBuf → Option PathBuf
  pub create_dir_all : State → PathBuf → State × Bool
  pub write : State → PathBuf → List ℕ → State × Bool
  pub read : State → PathBuf → Option (List ℕ)

pub record FileSystemStore (Fs : FileSystem) : Type 0 where
  pub files : Fs.State
  pub base_path : Fs.PathBuf
  pub finished_puts : List (ObjectName × Result (Unit {0}))
  pub finished_gets : List (ObjectName × Result (List ℕ))

-- An answer of the system, as a result.
abbrev pub succeeded : Bool → Result (Unit {0})
succeeded true = ok tt
succeeded false = err io_error

abbrev pub contents : Option (List ℕ) → Result (List ℕ)
contents (some bytes) = ok bytes
contents none = err io_error

module _ (Fs : FileSystem) where
  -- The directory above the file is made if it is missing.
  unfoldable pub make_parent : Fs.State → Fs.PathBuf → Fs.State × Bool
  make_parent files path = elim (Fs.parent path) [
    | none ↦ (files, true)
    | some directory ↦ Fs.create_dir_all files directory
  ]

module _ {Fs : FileSystem} where
  unfoldable pub new : Fs.State → Fs.PathBuf → Result (FileSystemStore Fs)
  new files base_path =
      let (files', created) = Fs.create_dir_all files base_path in
      elim created [
        | false ↦ err io_error
        | true ↦ ok (record {
          files = files';
          base_path = base_path;
          finished_puts = [];
          finished_gets = [];
        })
      ]

  unfoldable pub try_put_object :
      FileSystemStore Fs → ObjectName → List ℕ → FileSystemStore Fs × Result (Unit {0})
  unfolding make_parent
  try_put_object s name bytes =
      let path = Fs.push s.base_path name in
      let (files', made) = make_parent Fs s.files path in
      let (files'', written) = Fs.write files' path bytes in
      elim made [
        | false ↦ (record s { files = files' }, err io_error)
        | true ↦ (record s { files = files'' }, succeeded written)
      ]

  unfoldable pub try_get_object : FileSystemStore Fs → ObjectName → Result (List ℕ)
  try_get_object s name = contents (Fs.read s.files (Fs.push s.base_path name))

  unfoldable pub start_put_object : FileSystemStore Fs → ObjectName → List ℕ → FileSystemStore Fs
  unfolding try_put_object
  start_put_object s name bytes =
      let (s', result) = try_put_object s name bytes in
      record s' { finished_puts = s'.finished_puts ++ (name, result) ∷ [] }

  unfoldable pub start_get_object : FileSystemStore Fs → ObjectName → FileSystemStore Fs
  unfolding try_get_object
  start_get_object s name = record s {
    finished_gets = s.finished_gets ++ (name, try_get_object s name) ∷ [];
  }

  unfoldable pub poll_puts :
      FileSystemStore Fs → FileSystemStore Fs × List (ObjectName × Result (Unit {0}))
  poll_puts s = (record s { finished_puts = [] }, s.finished_puts)

  unfoldable pub poll_gets :
      FileSystemStore Fs → FileSystemStore Fs × List (ObjectName × Result (List ℕ))
  poll_gets s = (record s { finished_gets = [] }, s.finished_gets)

abbrev pub store : FileSystem → ArchiveStore
store Fs = record {
  State = FileSystemStore Fs;
  start_put_object = start_put_object;
  start_get_object = start_get_object;
  poll_puts = poll_puts;
  poll_gets = poll_gets;
}
