-- ===== src/Tests/Memory.antt =====
-- A directory held in memory, in which every call on a file that is there succeeds.
use Prim.Native.Nat.{bit_and}
use shbox.Prelude.{
  ℕ, true, false, ◌≡◌, refl, sym, ap, ◌∙◌, List, [], ◌∷◌, ◌++◌, Option, none, some, arith,
  if◌then◌else◌, Bool-cases, inl, inr, ◌||◌,
}
use shbox.Prelude.Bytes.{Bytes, bytes_eq, bytes_eq_iff}
use shbox.Prelude.Dict.{lookup, insert, delete, member, add, lookup-insert}
use shbox.Storage.Files.{
  Files, File, Io, IoError, done, failed, not_found, other, Lone, is_there, take,
}

abbrev pub Directory : Type 0
Directory = List (Bytes × File)

abbrev pub names : Directory → List Bytes
names [] = []
names ((n, file) ∷ s) = add n (names s)

member-add : (k n : Bytes) (ns : List Bytes) → member k (add n ns) ≡ (bytes_eq n k || member k ns)
unfolding member add
member-add k n ns = elim (Bool-cases (member n ns)) [
  | inl e ↦ elim (Bool-cases (bytes_eq n k)) [
    | inl same ↦ let is_k = (bytes_eq_iff n k).0 same in rw e (rw same (rw (← is_k) e))
    | inr differs ↦ rw e (rw differs refl)
  ]
  | inr e ↦ rw e refl
]

pub member-names : (s : Directory) (n : Bytes) → member n (names s) ≡ is_there (lookup n s)
unfolding lookup
member-names [] n = unfold member in refl
member-names ((k, file) ∷ s) n = member-add n k (names s) ∙ ground (arith, member-names s n)

add-Lone : (n : Bytes) (ns : List Bytes) → Lone ns → Lone (add n ns)
unfolding add
add-Lone n ns h = elim (Bool-cases (member n ns)) [ inl e ↦ rw e h | inr e ↦ rw e (e, h) ]

pub names-Lone : (s : Directory) → Lone (names s)
names-Lone [] = tt
names-Lone ((n, file) ∷ s) = add-Lone n (names s) (names-Lone s)

lookup-delete :
    (k j : Bytes) (s : Directory)
    → lookup j (delete k s) ≡ (if bytes_eq k j then none else lookup j s)
unfolding lookup delete
lookup-delete k j [] = ground arith
lookup-delete k j ((i, f) ∷ s) =
    ground (arith, bytes_eq_iff i k, bytes_eq_iff i j, bytes_eq_iff k j, lookup-delete k j s)

abbrev pub stat : Option File → Io File
stat none = failed not_found
stat (some file) = done file

abbrev pub read : ℕ → Option File → Io Bytes
read most none = failed not_found
read most (some file) = done (take most file.contents)

abbrev pub create : Bytes → Option File → Directory → Io (Unit {0}) × Directory
create n none s = (done tt, insert n (record { is_regular = true; mode = 0o600; contents = [] }) s)
create n (some file) s = (failed other, s)

abbrev pub append : Bytes → Bytes → Option File → Directory → Io (Unit {0}) × Directory
append n bytes none s = (failed not_found, s)
append n bytes (some file) s =
    (done tt, insert n (record file { contents = file.contents ++ bytes }) s)

abbrev pub move : Bytes → Bytes → Option File → Directory → Io (Unit {0}) × Directory
move from to none s = (failed not_found, s)
move from to (some file) s = (done tt, insert to file (delete from s))

abbrev pub unlink : Bytes → Option File → Directory → Io (Unit {0}) × Directory
unlink n none s = (failed not_found, s)
unlink n (some file) s = (done tt, delete n s)

bytes_eq_refl : (n : Bytes) → bytes_eq n n ≡ true
bytes_eq_refl n = (bytes_eq_iff n n).1 refl

lookup-insert_self :
    (n : Bytes) (file : File) (s : Directory) → lookup n (insert n file s) ≡ some file
lookup-insert_self n file s = lookup-insert n n file s ∙ rw (bytes_eq_refl n) refl

lookup-insert_others :
    (m n : Bytes) (file : File) (s : Directory)
    → bytes_eq m n ≡ false
    → lookup n (insert m file s) ≡ lookup n s
lookup-insert_others m n file s h = lookup-insert m n file s ∙ rw h refl

pub stat-done : (o : Option File) (file : File) → stat o ≡ done file → o ≡ some file
stat-done none file e = cc
stat-done (some f) file e = ground arith

pub stat-not_found : (o : Option File) → stat o ≡ failed not_found → o ≡ none
stat-not_found none e = refl
stat-not_found (some f) e = cc

pub read-done :
    (most : ℕ) (o : Option File) (file : File) (bytes : Bytes)
    → o ≡ some file
    → read most o ≡ done bytes
    → bytes ≡ take most file.contents
read-done most none file bytes h e = cc
read-done most (some f) file bytes h e =
    let same : take most f.contents ≡ bytes = ground arith in
    let is_file : f ≡ file = ground arith in
    sym same ∙ ap (λ (g : File). take most g.contents) is_file

pub create-done :
    (n : Bytes) (o : Option File) (s : Directory)
    → (create n o s).0 ≡ done tt
    → (file : File) × (lookup n (create n o s).1 ≡ some file)
      × (file.is_regular ≡ true)
      × (bit_and file.mode 0o022 ≡ 0)
      × (file.contents ≡ [])
create-done n none s e = (
  record { is_regular = true; mode = 0o600; contents = [] },
  lookup-insert_self n _ s,
  refl,
  refl,
  refl,
)
create-done n (some f) s e = cc

pub create-others :
    (m : Bytes) (o : Option File) (s : Directory) (n : Bytes)
    → bytes_eq m n ≡ false
    → lookup n (create m o s).1 ≡ lookup n s
create-others m none s n h = lookup-insert_others m n _ s h
create-others m (some f) s n h = refl

pub append-done :
    (n bytes : Bytes) (o : Option File) (s : Directory) (file : File)
    → o ≡ some file
    → lookup n (append n bytes o s).1 ≡ some (record file { contents = file.contents ++ bytes })
append-done n bytes none s file h = cc
append-done n bytes (some f) s file h =
    let is_file : f ≡ file = ground arith in
    lookup-insert_self n _ s
    ∙ ap (λ (g : File). some (record g { contents = g.contents ++ bytes })) is_file

pub append-others :
    (m bytes : Bytes) (o : Option File) (s : Directory) (n : Bytes)
    → bytes_eq m n ≡ false
    → lookup n (append m bytes o s).1 ≡ lookup n s
append-others m bytes none s n h = refl
append-others m bytes (some f) s n h = lookup-insert_others m n _ s h

pub move-done :
    (from to : Bytes) (o : Option File) (s : Directory)
    → lookup from s ≡ o
    → (move from to o s).0 ≡ done tt
    → (n : Bytes)
    → lookup n (move from to o s).1
      ≡ (if bytes_eq to n then lookup from s else if bytes_eq from n then none else lookup n s)
move-done from to none s h e n = cc
move-done from to (some f) s h e n =
    lookup-insert to n f (delete from s) ∙ ground (arith, h, lookup-delete from n s)

pub move-failed :
    (from to : Bytes) (o : Option File) (s : Directory) (x : IoError)
    → (move from to o s).0 ≡ failed x
    → (n : Bytes) → lookup n (move from to o s).1 ≡ lookup n s
move-failed from to none s x e n = refl
move-failed from to (some f) s x e n = cc

pub unlink-done :
    (m : Bytes) (o : Option File) (s : Directory)
    → (unlink m o s).0 ≡ done tt
    → (n : Bytes) → lookup n (unlink m o s).1 ≡ (if bytes_eq m n then none else lookup n s)
unlink-done m none s e n = cc
unlink-done m (some f) s e n = lookup-delete m n s

pub unlink-failed :
    (m : Bytes) (o : Option File) (s : Directory) (x : IoError)
    → (unlink m o s).0 ≡ failed x
    → (n : Bytes) → lookup n (unlink m o s).1 ≡ lookup n s
unlink-failed m none s x e n = refl
unlink-failed m (some f) s x e n = cc

pub done_eq : {A : Type 0} (x y : A) → done y ≡ done x → x ≡ y
done_eq x y e = cc

abbrev pub directory : Files
directory = record {
  State = Directory;
  at = λ s n. lookup n s;
  listing = names;
  open_directory = λ s. (done (record { is_directory = true; is_own = true; mode = 0o700 }), s);
  flock = λ s. (done tt, s);
  read_names = λ s. (done (names s), s);
  stat_at = λ n s. (stat (lookup n s), s);
  read_bytes = λ n most s. (read most (lookup n s), s);
  create_file_at = λ n s. create n (lookup n s) s;
  write_all = λ n bytes s. append n bytes (lookup n s) s;
  sync_all = λ n s. (done tt, s);
  rename_at = λ from to s. move from to (lookup from s) s;
  unlink_at = λ n s. unlink n (lookup n s) s;
  sync_directory = λ s. (done tt, s);
  listing-at = member-names;
  listing-Lone = names-Lone;
  at-open_directory = λ s n. refl;
  at-flock = λ s n. refl;
  at-read_names = λ s n. refl;
  at-stat_at = λ m s n. refl;
  at-read_bytes = λ m most s n. refl;
  at-sync_directory = λ s n. refl;
  read_names_lem = λ s ns e. done_eq ns (names s) e;
  stat_at_lem = λ n s. stat-done (lookup n s);
  stat_at_not_found = λ n s. stat-not_found (lookup n s);
  read_bytes_lem = λ n most s. read-done most (lookup n s);
  create_file_at_lem = λ n s. create-done n (lookup n s) s;
  create_file_at_others = λ m s. create-others m (lookup m s) s;
  write_all_lem = λ n bytes s file h e. append-done n bytes (lookup n s) s file h;
  write_all_others = λ m bytes s. append-others m bytes (lookup m s) s;
  sync_all_lem = λ n s e. refl;
  sync_all_others = λ m s n h. refl;
  rename_at_lem = λ from to s e. move-done from to (lookup from s) s refl e;
  rename_at_failed = λ from to s x e. move-failed from to (lookup from s) s x e;
  unlink_at_lem = λ m s e. unlink-done m (lookup m s) s e;
  unlink_at_failed = λ m s x e. unlink-failed m (lookup m s) s x e;
}
