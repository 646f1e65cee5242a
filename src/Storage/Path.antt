-- ===== src/Storage/Path.antt =====
-- What the store uses of `std::path`, on Unix, and `Store::blob_path` of
-- core/nexus-core/src/storage.rs. A path is its text; what the system resolves in it (links, `..`)
-- is not modelled.
pub mod Names
use nexus_p2p.Base.{
  ℕ, Bool, true, not, ◌&&◌, ◌||◌, list_eq, Option, none, some, List, [], ◌∷◌, ◌++◌, ◌==◌, nat_eq,
  if◌then◌else◌, ◌≡◌, refl, arith,
}
use nexus_p2p.Base.Text.{Text, codes, starts_with, ends_with_char, slice_to}
use nexus_p2p.Base.Result.{panic, Result, ok, err, some_or, ◌>>=◌}

-- `Path::join`: an absolute second part replaces the first, and nothing is put after an empty one.
unfoldable pub join : Text → Text → Text
unfolding starts_with ends_with_char
join a b =
    if starts_with b (codes "/")
    then b
    else if a == [] || ends_with_char 47 a
    then a ++ b
    else a ++ (47 ∷ b)

-- what stands before the last dot
unfoldable pub before_dot : Text → Option Text
before_dot [] = none
before_dot (c ∷ s) = elim (before_dot s) [
  | some r ↦ some (c ∷ r)
  | none ↦ if c == 46 then some [] else none
]

-- `Path::file_stem` of a file name: a leading dot starts no extension.
unfoldable pub file_stem : Text → Text
unfolding before_dot
file_stem name = elim (before_dot name) [ none ↦ name | some [] ↦ name | some (c ∷ s) ↦ c ∷ s ]

-- the directories, with their last slash, and the file name
unfoldable pub split_dir : Text → Text × Text
split_dir [] = ([], [])
split_dir (c ∷ s) =
    let (dir, name) = split_dir s in
    elim dir [
      | [] ↦ if c == 47 then (47 ∷ [], name) else ([], c ∷ name)
      | x ∷ xs ↦ (c ∷ x ∷ xs, name)
    ]

-- Slashes and `.` components, after a slash.
unfoldable pub no_name : Text → Bool
no_name [] = true
no_name (c ∷ s) =
    let rest = no_name s in
    if c == 47 then rest else c == 46 && (s == [] || starts_with s (codes "/")) && rest

-- without the slashes and the `.` components at the end
unfoldable pub trim_tail : Text → Text
trim_tail [] = []
trim_tail (c ∷ s) = let rest = trim_tail s in if c == 47 && no_name s then [] else c ∷ rest

-- Whether the last component is a file name: it is not at the root and for `.` and `..`.
unfoldable pub is_file_name : Text → Bool
is_file_name name = not (name == [] || name == codes "." || name == codes "..")

-- `Path::file_name`
unfoldable pub file_name : Text → Option Text
unfolding split_dir trim_tail is_file_name
file_name path =
    let (dir, name) = split_dir (trim_tail path) in if is_file_name name then some name else none

-- `Path::with_extension`, of an extension that is not empty: a path without a file name stays as it
-- is.
unfoldable pub with_extension : Text → Text → Text
unfolding split_dir file_stem trim_tail is_file_name
with_extension path extension =
    let (dir, name) = split_dir (trim_tail path) in
    if is_file_name name then dir ++ (file_stem name ++ (46 ∷ extension)) else path

-- `blob_path`, with the panic of `&hash[..2]`
unfoldable pub blob_path : Text → Text → Result Text
blob_path blob_dir hash = do
  prefix ← some_or panic (slice_to 2 hash)
  ok (join (join blob_dir prefix) hash)

partial_path : with_extension (codes "d/ab/abc") (codes "partial") ≡ codes "d/ab/abc.partial"
unfolding with_extension no_name starts_with nat_eq list_eq
partial_path = refl

partial_slash : with_extension (codes "out/./") (codes "nexus-partial") ≡ codes "out.nexus-partial"
unfolding with_extension no_name starts_with nat_eq list_eq
partial_slash = refl

partial_parent : with_extension (codes "a/..") (codes "partial") ≡ codes "a/.."
unfolding with_extension no_name starts_with nat_eq list_eq
partial_parent = refl

join_empty : join [] (codes "blobs") ≡ codes "blobs"
unfolding join nat_eq list_eq
join_empty = refl

blob_path_of_hash : blob_path (codes "d/blobs") (codes "abcd") ≡ ok (codes "d/blobs/ab/abcd")
unfolding blob_path join slice_to nat_eq list_eq
blob_path_of_hash = refl

blob_path_short : blob_path (codes "d/blobs") (codes "a") ≡ err panic
unfolding blob_path join slice_to nat_eq list_eq
blob_path_short = refl
