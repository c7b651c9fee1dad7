-- ===== src/Store/JsonFile/Disk.antt =====
-- src/store/json_file.rs: what `persist_inner` relies on, and what it does to the file of the store.
use r2r_jev.Prelude.{
  String, [], ◌∷◌, Option, none, some, true, ◌≡◌, ◌≢◌, refl, ap, ◌∙◌, arith, ◌==◌, text_ne_of,
  Bool-cases, inl, inr,
}
use Prim.Native.String.{◌++◌, count}
use text.Mathlib.TextLemmas.{length-append}
use r2r_jev.Prelude.Format.{format}
use r2r_jev.Store.Memory.{MemoryEventStore}
use r2r_jev.Store.JsonFile.{
  Io, done, failed, FilePath, FileSystem, Codec, JsonFileEventStore, name_of, temp_path, opened,
  open_store, renamed, written, encoded, with_directory, persist_inner,
}

-- The file at `q` is the same on both disks.
abbrev pub Same : {D : Type 0} → FileSystem D → FilePath → D → D → Type 0
Same fs q d d' = (fs.exists d' q ≡ fs.exists d q) × (fs.read d' q ≡ fs.read d q)

-- What the file system and the codec promise to the store at `path`, which is an ordinary path: it
-- has a file name, no `..`, and no links, and no other process writes beside it. Creating the parent
-- directory neither creates nor changes the file at the path; a call on the temporary file leaves the
-- file at the path, if that is another one; a successful write and a successful rename leave what
-- they were given, a failed rename leaves the file, and the codec reads back what it has written,
-- which is never the empty text.
pub record Reliable {D : Type 0} (fs : FileSystem D) (codec : Codec) (path : FilePath)
    : Type 0 where
  pub create_keeps : (d : D) → Same fs path d (fs.create_dir_all d path.directory).1
  pub write_keeps :
      (d : D) (bytes : String)
      → path ≢ temp_path path
      → Same fs path d (fs.write d (temp_path path) bytes).1
  pub write_done :
      (d d' : D) (bytes : String)
      → fs.write d (temp_path path) bytes ≡ (done tt, d')
      → fs.read d' (temp_path path) ≡ done bytes
  pub rename_done :
      (d d' : D) (bytes : String)
      → fs.read d (temp_path path) ≡ done bytes
      → fs.rename d (temp_path path) path ≡ (done tt, d')
      → (fs.exists d' path ≡ true) × (fs.read d' path ≡ done bytes)
  pub rename_failed :
      (d d' : D) (e : String)
      → fs.rename d (temp_path path) path ≡ (failed e, d')
      → Same fs path d d'
  pub remove_keeps :
      (d : D) → path ≢ temp_path path → Same fs path d (fs.remove_file d (temp_path path)).1
  pub decodes :
      (s : MemoryEventStore) (bytes : String)
      → codec.to_vec_pretty s ≡ done bytes
      → (bytes ≢ "") × (codec.from_slice bytes ≡ done s)

Same-trans :
    {D : Type 0} (fs : FileSystem D) (q : FilePath) (a b c : D)
    → Same fs q a b
    → Same fs q b c
    → Same fs q a c
Same-trans fs q a b c x y = (y.0 ∙ x.0, y.1 ∙ x.1)

-- The temporary file stands beside the file of the store and is another one.
temp_path-ne : (p : FilePath) → p ≢ temp_path p
temp_path-ne p h = longer p.file_name (ap (λ (q : FilePath). q.file_name) h)
  where
    longer : (n : Option String) → n ≢ some (format ("." ∷ name_of n ∷ ".tmp" ∷ []))
    longer none e = cc
    longer (some name) e =
        let same : name ≡ "." ++ (name ++ (".tmp" ++ "")) = cc in
        let counted = ap count same in
        omega (
          arith,
          counted,
          length-append "." (name ++ (".tmp" ++ "")),
          length-append name (".tmp" ++ ""),
        )

module _ {D : Type 0} (fs : FileSystem D) (codec : Codec) where
  -- A persist that succeeds leaves a file that opens as the store; one that fails leaves the file.
  abbrev pub Effect : D → JsonFileEventStore → Io (Unit {0}) × D → Type 0
  Effect d store (done u, d') =
      (open_store fs codec d' store.path ≡ opened fs codec store.path store.inner)
  Effect d store (failed e, d') = Same fs store.path d d'

  renamed-Effect :
      (d d1 : D) (store : JsonFileEventStore) (bytes : String)
      → Reliable fs codec store.path
      → store.path ≢ temp_path store.path
      → Same fs store.path d d1
      → fs.read d1 (temp_path store.path) ≡ done bytes
      → codec.to_vec_pretty store.inner ≡ done bytes
      → (r : Io (Unit {0}) × D) → fs.rename d1 (temp_path store.path) store.path ≡ r
      → Effect d store (renamed fs codec store.path r)
  unfolding open_store
  renamed-Effect d d1 store bytes laws other kept reads enc (done u, d') h =
      let (there, has) = laws.rename_done d1 d' bytes reads h in
      let (full, back) = laws.decodes store.inner bytes enc in
      rw there (rw has (rw (text_ne_of bytes "" full) (rw back refl)))
  renamed-Effect d d1 store bytes laws other kept reads enc (failed e, d') h =
      Same-trans fs store.path d d' (fs.remove_file d' (temp_path store.path)).1
        (Same-trans fs store.path d d1 d' kept (laws.rename_failed d1 d' e h))
        (laws.remove_keeps d' other)

  written-Effect :
      (d d1 : D) (store : JsonFileEventStore) (bytes : String)
      → Reliable fs codec store.path
      → store.path ≢ temp_path store.path
      → Same fs store.path d d1
      → codec.to_vec_pretty store.inner ≡ done bytes
      → (r : Io (Unit {0}) × D) → fs.write d1 (temp_path store.path) bytes ≡ r
      → Effect d store (written fs codec store.path r)
  written-Effect d d1 store bytes laws other kept enc (done u, d') h =
      let here = laws.write_keeps d1 bytes other in
      renamed-Effect d d' store bytes laws other
        (Same-trans fs store.path d d1 d' kept (rw h at here)) (laws.write_done d1 d' bytes h) enc _
        refl
  written-Effect d d1 store bytes laws other kept enc (failed e, d') h =
      let here = laws.write_keeps d1 bytes other in
      Same-trans fs store.path d d1 d' kept (rw h at here)

  encoded-Effect :
      (d d1 : D) (store : JsonFileEventStore)
      → Reliable fs codec store.path
      → store.path ≢ temp_path store.path
      → Same fs store.path d d1
      → (o : Io String) → codec.to_vec_pretty store.inner ≡ o
      → Effect d store (encoded fs codec store.path d1 o)
  encoded-Effect d d1 store laws other kept (done bytes) h =
      written-Effect d d1 store bytes laws other kept h _ refl
  encoded-Effect d d1 store laws other kept (failed e) h = kept

  with_directory-Effect :
      (d : D) (store : JsonFileEventStore)
      → Reliable fs codec store.path
      → store.path ≢ temp_path store.path
      → (r : Io (Unit {0}) × D) → Same fs store.path d r.1
      → Effect d store (with_directory fs codec store r)
  with_directory-Effect d store laws other (done u, d1) kept =
      encoded-Effect d d1 store laws other kept _ refl
  with_directory-Effect d store laws other (failed e, d1) kept = kept

  pub persist_inner-Effect :
      (d : D) (store : JsonFileEventStore)
      → Reliable fs codec store.path
      → Effect d store (persist_inner fs codec d store)
  unfolding persist_inner
  persist_inner-Effect d store laws =
      let other = temp_path-ne store.path in
      elim (Bool-cases (store.path.directory == "")) [
        | inl here ↦ rw here (with_directory-Effect d store laws other (done tt, d) (refl, refl))
        | inr below ↦ rw below (
            with_directory-Effect d store laws other (fs.create_dir_all d store.path.directory)
              (laws.create_keeps d))
      ]
