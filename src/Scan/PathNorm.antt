-- ===== src/Scan/PathNorm.antt =====
-- internal/pathnorm: `SubtreeExcludes` and `UsrMerge`.
use swinv.Prelude.{
  Bool, ◌||◌, ◌&&◌, List, [], ◌∷◌, ◌++◌, Option, none, some, Bytes, codes, bytes_eq, cut_prefix,
  has_prefix, trim_suffix, if◌then◌else◌, is_empty, ◌==◌,
}
use swinv.Prelude.Space.{trim_space, cut_at}
use swinv.Prelude.Sort.{any}

-- `strings.ContainsAny(rest, "*?[")`.
abbrev pub has_glob : Bytes → Bool
has_glob s = any (λ c. (c == b'*') || (c == b'?') || (c == b'[')) s

unfoldable pub add_subtree : Option Bytes → List Bytes → List Bytes
unfolding trim_suffix
add_subtree none subtrees = subtrees
add_subtree (some anchored) subtrees =
    let rest = trim_suffix (trim_suffix anchored (codes "/**")) (codes "/") in
    if is_empty rest || has_glob rest then subtrees else subtrees ++ ((b'/' ∷ rest) ∷ [])

unfoldable pub subtrees_of : List Bytes → List Bytes → List Bytes
unfolding add_subtree cut_prefix trim_space
subtrees_of [] subtrees = subtrees
subtrees_of (p ∷ patterns) subtrees =
    subtrees_of patterns (add_subtree (cut_prefix (trim_space p) (codes "./")) subtrees)

unfoldable pub is_covered : List Bytes → Bytes → Bool
unfolding bytes_eq has_prefix
is_covered subtrees rel = any (λ s. bytes_eq rel s || has_prefix rel (s ++ (b'/' ∷ []))) subtrees

-- `none` is the nil function.
unfoldable pub subtree_excludes : List Bytes → Option (Bytes → Bool)
unfolding subtrees_of is_covered
subtree_excludes patterns = test (subtrees_of patterns [])
  where
    test : List Bytes → Option (Bytes → Bool)
    test [] = none
    test (s ∷ subtrees) = some (is_covered (s ∷ subtrees))

abbrev pub merged_usr_dirs : List Bytes
merged_usr_dirs =
    codes "bin" ∷ codes "sbin" ∷ codes "lib" ∷ codes "lib32" ∷ codes "lib64" ∷ codes "libx32" ∷ []

-- The function that `UsrMerge` returns; `is_symlink` is the `Lstat` of a directory under the root.
unfoldable pub usr_merge : (Bytes → Bool) → Bytes → Bytes
unfolding cut_prefix cut_at bytes_eq
usr_merge is_symlink p = under (cut_prefix p (codes "/"))
  where
    moved : Option (Bytes × Bytes) → Bytes
    moved none = p
    moved (some (first, later)) =
        if any (bytes_eq first) merged_usr_dirs && is_symlink first then codes "/usr" ++ p else p

    under : Option Bytes → Bytes
    under none = p
    under (some rest) = moved (cut_at b'/' rest)
