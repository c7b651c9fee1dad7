-- ===== src/Examples/Disk.antt =====
-- src/store/json_file.rs: a disk in memory, with directories and with room for a number of writes.
use r2r_jev.Prelude.{
  String, List, [], ◌∷◌, Option, none, some, Bool, true, false, ◌&&◌, ◌||◌, ℕ, zero, suc, ◌≡◌, ◌↔◌,
  refl, ap, subst, arith, ◌==◌, eq_iff, Bool-cases, inl, inr, if◌then◌else◌,
}
use r2r_jev.Prelude.Assoc.{Eq, Assoc, lookup, insert, lookup-insert}
use r2r_jev.Prelude.Format.{format}
use r2r_jev.Store.JsonFile.{Io, done, failed, temp_path, FilePath, FileSystem}
use r2r_jev.Store.JsonFile.Disk.{Same}

unfoldable pub option_eq : Option String → Option String → Bool
option_eq none none = true
option_eq none (some t) = false
option_eq (some s) none = false
option_eq (some s) (some t) = s == t

option_eq_iff : (a b : Option String) → (option_eq a b ≡ true) ↔ (a ≡ b)
unfolding option_eq
option_eq_iff none none = ground arith
option_eq_iff none (some t) = ground arith
option_eq_iff (some s) none = ground arith
option_eq_iff (some s) (some t) = ground (arith, eq_iff s t)

unfoldable pub path_eq : FilePath → FilePath → Bool
path_eq p q = p.directory == q.directory && option_eq p.file_name q.file_name

pub path_eq_iff : (p q : FilePath) → (path_eq p q ≡ true) ↔ (p ≡ q)
unfolding path_eq
path_eq_iff p q =
    ground (arith, eq_iff p.directory q.directory, option_eq_iff p.file_name q.file_name)

instance abbrev pub file_path_eq : Eq FilePath
file_path_eq = record { beq = path_eq; beq_iff = path_eq_iff }

abbrev pub Files : Type 0
Files = Assoc FilePath String

unfoldable pub remove : FilePath → Files → Files
remove p [] = []
remove p (entry ∷ rest) =
    let later = remove p rest in if path_eq entry.0 p then later else entry ∷ later

pub lookup-remove :
    (p q : FilePath) (files : Files)
    → path_eq p q ≡ false
    → lookup q (remove p files) ≡ lookup q files
unfolding lookup remove
lookup-remove p q [] h = refl
lookup-remove p q (entry ∷ rest) h =
    let later = lookup-remove p q rest h in
    ground (arith, later, path_eq_iff entry.0 p, path_eq_iff entry.0 q, path_eq_iff p q)

abbrev pub is_some : Option String → Bool
is_some none = false
is_some (some bytes) = true

abbrev pub contents : Option String → Io String
contents none = failed "no such file"
contents (some bytes) = done bytes

abbrev pub move : Files → FilePath → FilePath → Option String → Io (Unit {0}) × Files
move files p q none = (failed "no such file", files)
move files p q (some bytes) = (done tt, insert q bytes (remove p files))

-- The files by their paths, the directories by their full names, and how many writes there is room
-- for.
pub record Ram : Type 0 where
  pub directories : List String
  pub files : Files
  pub room : ℕ

abbrev pub contains_name : List String → String → Bool
contains_name [] name = false
contains_name (held ∷ rest) name = held == name || contains_name rest name

abbrev full_name : FilePath → String
full_name p = elim p.file_name [
  | none ↦ p.directory
  | some name ↦ if p.directory == "" then name else format (p.directory ∷ "/" ∷ name ∷ [])
]

abbrev pub moved : Ram → Io (Unit {0}) × Files → Io (Unit {0}) × Ram
moved d (r, files) = (r, record d { files = files })

-- A write for which there is no room leaves an empty file.
abbrev pub write_room : ℕ → Ram → FilePath → String → Io (Unit {0}) × Ram
write_room zero d p bytes =
    (failed "no space left on device", record d { files = insert p "" d.files })
write_room (suc n) d p bytes = (done tt, record d { files = insert p bytes d.files; room = n })

abbrev pub ram : FileSystem Ram
ram = record {
  exists = λ d p. is_some (lookup p d.files) || contains_name d.directories (full_name p);
  read = λ d p. contents (lookup p d.files);
  create_dir_all = λ d dir. (done tt, record d { directories = dir ∷ d.directories });
  write = λ d p bytes.
      if contains_name d.directories p.directory
      then write_room d.room d p bytes
      else (failed "no such directory", d);
  rename = λ d p q. moved d (move d.files p q (lookup p d.files));
  remove_file = λ d p. (done tt, record d { files = remove p d.files });
}

abbrev pub path : FilePath
path = record { directory = "data"; file_name = some "store.json" }

abbrev pub temp : FilePath
temp = temp_path path

pub temp_other : path_eq temp path ≡ false
unfolding path_eq option_eq
temp_other = refl

inserted_keeps :
    (bytes : String) (files : Files) → lookup path (insert temp bytes files) ≡ lookup path files
inserted_keeps bytes files = rw (lookup-insert temp path bytes files) (rw temp_other refl)

inserted_there :
    (p : FilePath) (bytes : String) (files : Files) → lookup p (insert p bytes files) ≡ some bytes
inserted_there p bytes files =
    let same : path_eq p p ≡ true = (path_eq_iff p p).1 refl in
    rw (lookup-insert p p bytes files) (rw same refl)

-- Only the file at the path and the directories count.
pub kept :
    (d d' : Ram)
    → lookup path d'.files ≡ lookup path d.files
    → d'.directories ≡ d.directories
    → Same ram path d d'
kept d d' files directories = rw files (rw directories (refl, refl))

write_room-keeps :
    (n : ℕ) (d : Ram) (bytes : String) → Same ram path d (write_room n d temp bytes).1
write_room-keeps zero d bytes =
    kept d (write_room zero d temp bytes).1 (inserted_keeps "" d.files) refl
write_room-keeps (suc n) d bytes =
    kept d (write_room (suc n) d temp bytes).1 (inserted_keeps bytes d.files) refl

pub write-keeps : (d : Ram) (bytes : String) → Same ram path d (ram.write d temp bytes).1
write-keeps d bytes = elim (Bool-cases (contains_name d.directories "data")) [
  | inl there ↦ rw there (write_room-keeps d.room d bytes)
  | inr missing ↦ rw missing (refl, refl)
]

write_room-done :
    (n : ℕ) (d d' : Ram) (bytes : String)
    → write_room n d temp bytes ≡ (done tt, d')
    → ram.read d' temp ≡ done bytes
write_room-done zero d d' bytes h = absurd (cc h)
write_room-done (suc n) d d' bytes h =
    subst (λ (x : Ram). ram.read x temp ≡ done bytes) (ap (λ (r : Io (Unit {0}) × Ram). r.1) h)
      (rw (inserted_there temp bytes d.files) refl)

pub write-done :
    (d d' : Ram) (bytes : String)
    → ram.write d temp bytes ≡ (done tt, d')
    → ram.read d' temp ≡ done bytes
write-done d d' bytes h = elim (Bool-cases (contains_name d.directories "data")) [
  | inl there ↦ write_room-done d.room d d' bytes (rw there at h)
  | inr missing ↦ absurd (cc (rw missing at h))
]

pub rename-done :
    (d d' : Ram) (bytes : String) (held : Option String)
    → contents held ≡ done bytes
    → moved d (move d.files temp path held) ≡ (done tt, d')
    → (ram.exists d' path ≡ true) × (ram.read d' path ≡ done bytes)
rename-done d d' bytes none h k = absurd (cc h)
rename-done d d' bytes (some text) h k =
    subst (λ (x : Ram). (ram.exists x path ≡ true) × (ram.read x path ≡ done bytes))
      (ap (λ (r : Io (Unit {0}) × Ram). r.1) k)
      (rw (inserted_there path text (remove temp d.files)) (refl, h))

pub rename-failed :
    (d d' : Ram) (e : String) (held : Option String)
    → moved d (move d.files temp path held) ≡ (failed e, d')
    → Same ram path d d'
rename-failed d d' e none h =
    subst (λ (x : Ram). Same ram path d x) (ap (λ (r : Io (Unit {0}) × Ram). r.1) h) (refl, refl)
rename-failed d d' e (some text) h = absurd (cc h)
