-- ===== src/Archive/FileStore/Examples.antt =====
-- src/archive/fs_store.rs: a file system that is a list of named files, with no directories.
use ubiblk.Prelude.{
  ℕ, ◌≡◌, refl, true, Option, none, some, List, [], ◌∷◌, ◌++◌, ok, arith, beq_bytes, beq_bytes_refl,
  beq_bytes_eq, if◌then◌else◌, Bool-cases, inl, inr,
}
use ubiblk.Archive.{ObjectName, put_object, get_object}
use ubiblk.Archive.FileStore.{FileSystem, FileSystemStore, make_parent, store}
use ubiblk.Archive.FileStore.Laws.{IsFileSystem, Takes, get_object-put_object}

abbrev find : List ℕ → List (List ℕ × List ℕ) → Option (List ℕ)
find path [] = none
find path ((name, bytes) ∷ files) = if beq_bytes name path then some bytes else find path files

abbrev flat : FileSystem
flat = record {
  State = List (List ℕ × List ℕ);
  PathBuf = List ℕ;
  push = λ path name. path ++ name;
  parent = λ path. none;
  create_dir_all = λ files path. (files, true);
  write = λ files path bytes. ((path, bytes) ∷ files, true);
  read = λ files path. find path files;
}

flat-IsFileSystem : IsFileSystem flat
flat-IsFileSystem = record {
  read-write = λ files path bytes ran. rw (beq_bytes_refl path) refl;
  read-write_other = λ files path other bytes ne. elim (Bool-cases (beq_bytes path other)) [
    | inl same ↦ absurd (ne (beq_bytes_eq path other same))
    | inr apart ↦ rw apart refl
  ];
  read-create_dir_all = λ files path other. refl;
}

abbrev empty_store : FileSystemStore flat
empty_store = record { files = []; base_path = b'/' ∷ []; finished_puts = []; finished_gets = [] }

abbrev data_name : ObjectName
data_name = b'd' ∷ []

abbrev other_name : ObjectName
other_name = b'e' ∷ []

abbrev put_bytes : List ℕ
put_bytes = 1 ∷ 2 ∷ []

takes : Takes flat flat-IsFileSystem empty_store data_name put_bytes
unfolding make_parent
takes = record { made = refl; written = refl }

get_object-put_object_example :
    (after : FileSystemStore flat) × (put_object (store flat) 1 empty_store data_name put_bytes
      ≡ (after, ok tt))
    × ((get_object (store flat) 2 after data_name).1 ≡ ok put_bytes)
    × ((get_object (store flat) 2 after other_name).1
        ≡ (get_object (store flat) 2 empty_store other_name).1)
get_object-put_object_example =
    get_object-put_object flat flat-IsFileSystem 0 1 empty_store data_name other_name put_bytes
      (ground arith) refl refl takes
