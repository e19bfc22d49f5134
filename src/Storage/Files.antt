-- ===== src/Storage/Files.antt =====
-- A directory of files behind the system calls that crates/shbox/src/sandbox/storage.rs makes: what
-- POSIX says of them, as the laws of a record. A failed call on a name may leave that name in any
-- state, unless its law says more.
use Prim.Native.Nat.{bit_and}
use shbox.Prelude.{
  ℕ, suc, Bool, true, false, ◌≡◌, Option, none, some, List, [], ◌∷◌, ◌++◌, if◌then◌else◌, zero,
}
use shbox.Prelude.Bytes.{Bytes, bytes_eq}
use shbox.Prelude.Dict.{member}

pub data IoError : Type 0 where
  not_found other : IoError

pub data Io {ℓ} (A : Type ℓ) : Type ℓ where
  done : A → Io A
  failed : IoError → Io A

pub record File : Type 0 where
  pub is_regular : Bool
  pub mode : ℕ
  pub contents : Bytes

-- What `fstat` says of an open directory.
pub record RootStat : Type 0 where
  pub is_directory : Bool
  pub is_own : Bool
  pub mode : ℕ

abbrev pub take : ℕ → Bytes → Bytes
take zero bytes = []
take (suc n) [] = []
take (suc n) (b ∷ bytes) = b ∷ take n bytes

abbrev pub is_there : Option File → Bool
is_there none = false
is_there (some file) = true

-- No name stands twice.
abbrev pub Lone : List Bytes → Type 0
Lone [] = Unit {0}
Lone (n ∷ ns) = (member n ns ≡ false) × Lone ns

pub record Files : Type 1 where
  pub State : Type 0
  -- The file of a name, and the names that are there.
  pub at : State → Bytes → Option File
  pub listing : State → List Bytes
  pub open_directory : State → Io RootStat × State
  pub flock : State → Io (Unit {0}) × State
  pub read_names : State → Io (List Bytes) × State
  pub stat_at : Bytes → State → Io File × State
  -- At most so many bytes of a file.
  pub read_bytes : Bytes → ℕ → State → Io Bytes × State
  pub create_file_at : Bytes → State → Io (Unit {0}) × State
  pub write_all : Bytes → Bytes → State → Io (Unit {0}) × State
  pub sync_all : Bytes → State → Io (Unit {0}) × State
  pub rename_at : Bytes → Bytes → State → Io (Unit {0}) × State
  pub unlink_at : Bytes → State → Io (Unit {0}) × State
  pub sync_directory : State → Io (Unit {0}) × State
  pub listing-at : (s : State) (n : Bytes) → member n (listing s) ≡ is_there (at s n)
  pub listing-Lone : (s : State) → Lone (listing s)
  pub at-open_directory : (s : State) (n : Bytes) → at (open_directory s).1 n ≡ at s n
  pub at-flock : (s : State) (n : Bytes) → at (flock s).1 n ≡ at s n
  pub at-read_names : (s : State) (n : Bytes) → at (read_names s).1 n ≡ at s n
  pub at-stat_at : (m : Bytes) (s : State) (n : Bytes) → at (stat_at m s).1 n ≡ at s n
  pub at-read_bytes :
      (m : Bytes) (most : ℕ) (s : State) (n : Bytes) → at (read_bytes m most s).1 n ≡ at s n
  pub at-sync_directory : (s : State) (n : Bytes) → at (sync_directory s).1 n ≡ at s n
  pub read_names_lem :
      (s : State) (ns : List Bytes) → (read_names s).0 ≡ done ns → ns ≡ listing (read_names s).1
  pub stat_at_lem :
      (n : Bytes) (s : State) (file : File) → (stat_at n s).0 ≡ done file → at s n ≡ some file
  pub stat_at_not_found :
      (n : Bytes) (s : State) → (stat_at n s).0 ≡ failed not_found → at s n ≡ none
  pub read_bytes_lem :
      (n : Bytes) (most : ℕ) (s : State) (file : File) (bytes : Bytes)
      → at s n ≡ some file
      → (read_bytes n most s).0 ≡ done bytes
      → bytes ≡ take most file.contents
  -- A new file is empty, and of the bits of mode 0600.
  pub create_file_at_lem :
      (n : Bytes) (s : State)
      → (create_file_at n s).0 ≡ done tt
      → (file : File) × (at (create_file_at n s).1 n ≡ some file)
        × (file.is_regular ≡ true)
        × (bit_and file.mode 0o022 ≡ 0)
        × (file.contents ≡ [])
  pub create_file_at_others :
      (m : Bytes) (s : State) (n : Bytes)
      → bytes_eq m n ≡ false
      → at (create_file_at m s).1 n ≡ at s n
  pub write_all_lem :
      (n bytes : Bytes) (s : State) (file : File)
      → at s n ≡ some file
      → (write_all n bytes s).0 ≡ done tt
      → at (write_all n bytes s).1 n ≡ some (record file { contents = file.contents ++ bytes })
  pub write_all_others :
      (m bytes : Bytes) (s : State) (n : Bytes)
      → bytes_eq m n ≡ false
      → at (write_all m bytes s).1 n ≡ at s n
  pub sync_all_lem :
      (n : Bytes) (s : State) → (sync_all n s).0 ≡ done tt → at (sync_all n s).1 n ≡ at s n
  pub sync_all_others :
      (m : Bytes) (s : State) (n : Bytes) → bytes_eq m n ≡ false → at (sync_all m s).1 n ≡ at s n
  pub rename_at_lem :
      (from to : Bytes) (s : State)
      → (rename_at from to s).0 ≡ done tt
      → (n : Bytes)
      → at (rename_at from to s).1 n
        ≡ (if bytes_eq to n then at s from else if bytes_eq from n then none else at s n)
  pub rename_at_failed :
      (from to : Bytes) (s : State) (e : IoError)
      → (rename_at from to s).0 ≡ failed e
      → (n : Bytes) → at (rename_at from to s).1 n ≡ at s n
  pub unlink_at_lem :
      (m : Bytes) (s : State)
      → (unlink_at m s).0 ≡ done tt
      → (n : Bytes) → at (unlink_at m s).1 n ≡ (if bytes_eq m n then none else at s n)
  pub unlink_at_failed :
      (m : Bytes) (s : State) (e : IoError)
      → (unlink_at m s).0 ≡ failed e
      → (n : Bytes) → at (unlink_at m s).1 n ≡ at s n
