-- ===== src/Archive/FileStore/Laws.antt =====
-- src/archive/fs_store.rs: an object that was put is got again, and no other object changes.
use ubiblk.Prelude.{
  ℕ, suc, ◌≡◌, ◌≢◌, refl, sym, ap, ◌∙◌, true, some, List, [], ok, arith, beq_bytes_refl,
  Option-cases, inl, inr,
}
use ubiblk.Archive.{ObjectName, put_object, get_object}
use ubiblk.Archive.FileStore.{
  FileSystem, FileSystemStore, contents, make_parent, start_put_object, start_get_object, poll_puts,
  poll_gets, store,
}

-- A file holds what was written to it last, and making directories changes no file.
pub record IsFileSystem (Fs : FileSystem) : Type 0 where
  pub read-write :
      (files : Fs.State) (path : Fs.PathBuf) (bytes : List ℕ)
      → (Fs.write files path bytes).1 ≡ true
      → Fs.read (Fs.write files path bytes).0 path ≡ some bytes
  pub read-write_other :
      (files : Fs.State) (path other : Fs.PathBuf) (bytes : List ℕ)
      → path ≢ other
      → Fs.read (Fs.write files path bytes).0 other ≡ Fs.read files other
  pub read-create_dir_all :
      (files : Fs.State) (path other : Fs.PathBuf)
      → Fs.read (Fs.create_dir_all files path).0 other ≡ Fs.read files other

module _ (Fs : FileSystem) (law : IsFileSystem Fs) where
  -- The system makes the directory and takes the file.
  pub record Takes (s : FileSystemStore Fs) (name : ObjectName) (bytes : List ℕ) : Type 0 where
    pub made : (make_parent Fs s.files (Fs.push s.base_path name)).1 ≡ true
    pub written :
        (Fs.write
          (make_parent Fs s.files (Fs.push s.base_path name)).0
          (Fs.push s.base_path name)
          bytes).1
        ≡ true

  read-make_parent :
      (files : Fs.State) (path other : Fs.PathBuf)
      → Fs.read (make_parent Fs files path).0 other ≡ Fs.read files other
  unfolding make_parent
  read-make_parent files path other = elim (Option-cases (Fs.parent path)) [
    | inl e ↦ rw (e, make_parent) refl
    | inr (directory, e) ↦ rw (e, make_parent) (law.read-create_dir_all files directory other)
  ]

  get_now :
      (polls : ℕ) (s : FileSystemStore Fs) (name : ObjectName)
      → s.finished_gets ≡ []
      → (get_object (store Fs) (suc polls) s name).1
        ≡ contents (Fs.read s.files (Fs.push s.base_path name))
  unfolding get_object start_get_object poll_gets
  get_now polls s name idle = ground (arith, beq_bytes_refl name)

  put_now :
      (polls : ℕ) (s : FileSystemStore Fs) (name : ObjectName) (bytes : List ℕ)
      → s.finished_puts ≡ []
      → Takes s name bytes
      → put_object (store Fs) (suc polls) s name bytes ≡ (
        record s {
          files =
              (Fs.write
                (make_parent Fs s.files (Fs.push s.base_path name)).0
                (Fs.push s.base_path name)
                bytes).0;
        },
        ok tt,
      )
  unfolding put_object start_put_object poll_puts
  put_now polls s name bytes idle t = ground (arith, beq_bytes_refl name)

  -- An idle store whose file system takes the file puts the object at once; got back after that, it
  -- is the same, and every other object, at another path, is what it was.
  pub get_object-put_object :
      (polls polls' : ℕ) (s : FileSystemStore Fs) (name other : ObjectName) (bytes : List ℕ)
      → Fs.push s.base_path name ≢ Fs.push s.base_path other
      → s.finished_puts ≡ []
      → s.finished_gets ≡ []
      → Takes s name bytes
      → (after : FileSystemStore Fs) × (put_object (store Fs) (suc polls) s name bytes
          ≡ (after, ok tt))
        × ((get_object (store Fs) (suc polls') after name).1 ≡ ok bytes)
        × ((get_object (store Fs) (suc polls') after other).1
            ≡ (get_object (store Fs) (suc polls') s other).1)
  get_object-put_object polls polls' s name other bytes ne no_puts no_gets t =
      let path = Fs.push s.base_path name in
      let dir = (make_parent Fs s.files path).0 in
      (
        record s { files = (Fs.write dir path bytes).0 },
        put_now polls s name bytes no_puts t,
        get_now polls' _ name no_gets ∙ ap contents (law.read-write dir path bytes t.written),
        get_now polls' _ other no_gets
            ∙ ap contents (
                law.read-write_other dir path (Fs.push s.base_path other) bytes ne
                ∙ read-make_parent s.files path (Fs.push s.base_path other))
            ∙ sym (get_now polls' s other no_gets),
      )
