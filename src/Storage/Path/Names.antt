-- ===== src/Storage/Path/Names.antt =====
-- The path of a blob ends in its hash, so that different hashes have different paths, and no
-- temporary file takes the place of a blob.
use mathlib.Core.List.{append_assoc, nil≢cons}
use nexus_p2p.Base.{
  ℕ, ◌<◌, ◌≡◌, ◌≢◌, refl, sym, ap, ◌∙◌, true, false, none, some, [], ◌∷◌, ◌++◌, arith, All,
  All-append, Bool-cases, Option-cases, inl, inr, ==-ne, ==-refl, nat_eq, list_eq, ◌==◌, ◌||◌,
}
use nexus_p2p.Base.Text.{Text, codes, starts_with, ends_with_char, slice_to}
use nexus_p2p.Base.Result.{ok}
use nexus_p2p.Storage.Path.{
  join, before_dot, file_stem, split_dir, no_name, trim_tail, is_file_name, with_extension,
  blob_path,
}

-- no `c` in a text
abbrev pub Lacks : ℕ → Text → Type 0
Lacks c = All (λ d. d ≢ c)

split_dir_plain : (b : Text) → Lacks 47 b → split_dir b ≡ ([], b)
unfolding split_dir
split_dir_plain [] h = refl
split_dir_plain (c ∷ b) h = rw (split_dir_plain b h.1, ==-ne h.0, split_dir_plain b h.1)

split_dir_cons :
    (c x : ℕ) (s xs name : Text)
    → split_dir s ≡ (x ∷ xs, name)
    → split_dir (c ∷ s) ≡ (c ∷ x ∷ xs, name)
unfolding split_dir
split_dir_cons c x s xs name e = rw (e, e)

split_dir_slash : (b : Text) → Lacks 47 b → split_dir (47 ∷ b) ≡ (47 ∷ [], b)
unfolding split_dir
split_dir_slash b h = rw (split_dir_plain b h, ==-refl {A = ℕ} 47, split_dir_plain b h)

pub split_dir_lem : (a b : Text) → Lacks 47 b → split_dir (a ++ 47 ∷ b) ≡ (a ++ 47 ∷ [], b)
split_dir_lem [] b h = split_dir_slash b h
split_dir_lem (c ∷ []) b h = split_dir_cons c 47 (47 ∷ b) [] b (split_dir_slash b h)
split_dir_lem (c ∷ d ∷ a) b h =
    split_dir_cons c d (d ∷ a ++ 47 ∷ b) (a ++ 47 ∷ []) b (split_dir_lem (d ∷ a) b h)

ends_with_char_lem : (c : ℕ) (a : Text) → ends_with_char c a ≡ true → (b : Text) × (a ≡ b ++ c ∷ [])
unfolding ends_with_char
ends_with_char_lem c [] h = absurd (ground arith)
ends_with_char_lem c (x ∷ []) h = ([], ground arith)
ends_with_char_lem c (x ∷ y ∷ s) h = let (b, e) = ends_with_char_lem c (y ∷ s) h in (x ∷ b, rw e)

relative : (b : Text) → Lacks 47 b → starts_with b (codes "/") ≡ false
unfolding starts_with
relative [] h = refl
relative (c ∷ b) h = ground (arith, h.0)

join_name : (a b : Text) → a ≢ [] → Lacks 47 b → (d : Text) × (join a b ≡ d ++ 47 ∷ b)
unfolding join
join_name a b n h = elim (Bool-cases (ends_with_char 47 a)) [
  | inl t ↦
      let (d, e) = ends_with_char_lem 47 a t in
      (d, rw (relative b h, ==-ne n, t) (ap (λ (c : Text). c ++ b) e ∙ append_assoc d (47 ∷ []) b))
  | inr t ↦ (a, rw (relative b h, ==-ne n, t) refl)
]

append-ne : (a b : Text) → b ≢ [] → a ++ b ≢ []
append-ne [] b h e = h e
append-ne (c ∷ a) b h e = nil≢cons (sym e)

join-ne : (a b : Text) → b ≢ [] → join a b ≢ []
unfolding join
join-ne a b h = elim (Bool-cases (starts_with b (codes "/"))) [
  | inl t ↦ rw t h
  | inr t ↦ elim (Bool-cases (a == [] || ends_with_char 47 a)) [
    | inl u ↦ rw (t, u) (append-ne a b h)
    | inr u ↦ rw (t, u) (append-ne a (47 ∷ b) (λ e. nil≢cons (sym e)))
  ]
]

slice_two-ne : (s : Text) {prefix : Text} → slice_to 2 s ≡ some prefix → (prefix ≢ []) × (s ≢ [])
unfolding slice_to
slice_two-ne [] h = absurd (ground (arith, h))
slice_two-ne (c ∷ s) h = (λ e. absurd (ground (arith, h, e)), λ e. nil≢cons (sym e))

pub blob_path_name :
    (blob_dir hash : Text) {path : Text}
    → Lacks 47 hash
    → blob_path blob_dir hash ≡ ok path
    → (d : Text) × (path ≡ d ++ 47 ∷ hash)
unfolding blob_path
blob_path_name blob_dir hash h e = elim (Option-cases (slice_to 2 hash)) [
  | inl t ↦ absurd (ground arith)
  | inr (prefix, t) ↦
      let some_prefix = (slice_two-ne hash t).0 in
      let (d, q) = join_name (join blob_dir prefix) hash (join-ne blob_dir prefix some_prefix) h in
      (d, ground (arith, q))
]

blob_path-ne : (blob_dir hash : Text) {path : Text} → blob_path blob_dir hash ≡ ok path → hash ≢ []
unfolding blob_path
blob_path-ne blob_dir hash e = elim (Option-cases (slice_to 2 hash)) [
  | inl t ↦ absurd (ground (arith, t, e))
  | inr (prefix, t) ↦ (slice_two-ne hash t).1
]

before_dot-none : (b : Text) → Lacks 46 b → before_dot b ≡ none
unfolding before_dot
before_dot-none [] h = refl
before_dot-none (c ∷ b) h = rw (before_dot-none b h.1) (ground (arith, h.0))

file_stem_plain : (b : Text) → Lacks 46 b → file_stem b ≡ b
unfolding file_stem
file_stem_plain b h = rw (before_dot-none b h, file_stem)

-- Hashes without a slash that have one path are the same.
pub blob_path-inj :
    (blob_dir hash other : Text) {path : Text}
    → Lacks 47 hash
    → Lacks 47 other
    → blob_path blob_dir hash ≡ ok path
    → blob_path blob_dir other ≡ ok path
    → hash ≡ other
blob_path-inj blob_dir hash other h k e f =
    let (d, p) = blob_path_name blob_dir hash h e in
    let (d', q) = blob_path_name blob_dir other k f in
    ap (λ (t : Text × Text). t.1)
      (sym (split_dir_lem d hash h) ∙ ap split_dir (sym p ∙ q) ∙ split_dir_lem d' other k)

-- A name without a slash or a dot stands at the end of its path.
no_name-plain : (b : Text) → b ≢ [] → Lacks 47 b → Lacks 46 b → no_name b ≡ false
unfolding no_name
no_name-plain [] n h k = absurd (n refl)
no_name-plain (c ∷ b) n h k = rw (==-ne h.0, ==-ne k.0) refl

no_name-path : (d b : Text) → b ≢ [] → Lacks 47 b → Lacks 46 b → no_name (d ++ 47 ∷ b) ≡ false
unfolding no_name
no_name-path [] b n h k = ground (arith, no_name-plain b n h k)
no_name-path (c ∷ d) b n h k = ground (arith, no_name-path d b n h k)

trim_tail-plain : (b : Text) → Lacks 47 b → trim_tail b ≡ b
unfolding trim_tail
trim_tail-plain [] h = refl
trim_tail-plain (c ∷ b) h = rw (==-ne h.0) (ap (◌∷◌ c) (trim_tail-plain b h.1))

trim_tail-path :
    (d b : Text) → b ≢ [] → Lacks 47 b → Lacks 46 b → trim_tail (d ++ 47 ∷ b) ≡ d ++ 47 ∷ b
unfolding trim_tail nat_eq
trim_tail-path [] b n h k = rw (no_name-plain b n h k) (ap (◌∷◌ 47) (trim_tail-plain b h))
trim_tail-path (c ∷ d) b n h k = ground (arith, no_name-path d b n h k, trim_tail-path d b n h k)

is_file_name-plain : (b : Text) → b ≢ [] → Lacks 46 b → is_file_name b ≡ true
unfolding is_file_name
is_file_name-plain [] n k = absurd (n refl)
is_file_name-plain (c ∷ b) n k = ground (arith, k.0)

partial_name :
    (d hash : Text)
    → hash ≢ []
    → Lacks 47 hash
    → Lacks 46 hash
    → with_extension (d ++ 47 ∷ hash) (codes "partial") ≡ d ++ 47 ∷ (hash ++ codes ".partial")
unfolding with_extension
partial_name d hash n h k = rw (
  trim_tail-path d hash n h k,
  split_dir_lem d hash h,
  is_file_name-plain hash n k,
  file_stem_plain hash k,
  append_assoc,
)

dotted : (a b : Text) → Lacks 46 (a ++ 46 ∷ b) → ⊥
dotted [] b h = h.0 refl
dotted (c ∷ a) b h = dotted a b h.1

-- The temporary file of a blob is at the path of no blob, for hashes without a slash or a dot.
pub partial-ne-blob_path :
    (blob_dir hash other : Text) {path : Text}
    → Lacks 47 hash
    → Lacks 46 hash
    → Lacks 47 other
    → Lacks 46 other
    → blob_path blob_dir hash ≡ ok path
    → blob_path blob_dir other ≢ ok (with_extension path (codes "partial"))
partial-ne-blob_path blob_dir hash other {path} h k h' k' e f =
    let (d, p) = blob_path_name blob_dir hash h e in
    let (d', q) = blob_path_name blob_dir other h' f in
    let named : with_extension path (codes "partial") ≡ d ++ 47 ∷ (hash ++ codes ".partial") =
      ap (λ (t : Text). with_extension t (codes "partial")) p
      ∙ partial_name d hash (blob_path-ne blob_dir hash e) h k in
    let same : hash ++ codes ".partial" ≡ other =
      ap (λ (t : Text × Text). t.1)
        (sym (split_dir_lem d _ (All-append _ hash _ h (omega arith)))
          ∙ ap split_dir (sym named ∙ q)
          ∙ split_dir_lem d' other h') in
    dotted hash (codes "partial") (rw same k')

slice_pair : (c : ℕ) (rest : Text) → c < 128 → slice_to 2 (47 ∷ c ∷ rest) ≡ some (47 ∷ c ∷ [])
unfolding slice_to
slice_pair c [] h = ground arith
slice_pair c (d ∷ rest) h = ground arith

join_absolute : (a b : Text) → join a (47 ∷ b) ≡ 47 ∷ b
unfolding join nat_eq
join_absolute a b = refl

-- An absolute name leaves the directory of the blobs.
pub blob_path_absolute :
    (blob_dir : Text) (c : ℕ) (rest : Text)
    → c < 128
    → blob_path blob_dir (47 ∷ c ∷ rest) ≡ ok (47 ∷ c ∷ rest)
unfolding blob_path
blob_path_absolute blob_dir c rest h = rw (slice_pair c rest h, join_absolute)
