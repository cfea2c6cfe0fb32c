-- ===== src/Merge/GitPath.antt =====
-- `validateGitPath` of backend/internal/usecase/pr/create_pr_usecase.go, with the `filepath.Clean` that
-- it calls.
use open_git.Base.{
  ◌==◌, Bool, false, ◌||◌, not, List, [], ◌∷◌, ◌++◌, Bytes, codes, contains, bytes_eq, reverse,
  if◌then◌else◌,
}

-- The elements of a path between its slashes.
unfoldable pub split_slash : Bytes → List Bytes
split_slash [] = [] ∷ []
split_slash (c ∷ path) = push (split_slash path)
  where
    push : List Bytes → List Bytes
    push [] = (c ∷ []) ∷ []
    push (part ∷ parts) = if c == 47 then [] ∷ part ∷ parts else (c ∷ part) ∷ parts

-- `filepath.Clean`: the elements kept so far are in reverse.
unfoldable pub clean_parts : Bool → List Bytes → List Bytes → List Bytes
clean_parts rooted [] kept = kept
clean_parts rooted (part ∷ parts) kept =
    let next =
      if bytes_eq part [] || bytes_eq part (codes ".")
      then kept
      else if bytes_eq part (codes "..")
      then up kept
      else part ∷ kept in
    clean_parts rooted parts next
  where
    up : List Bytes → List Bytes
    up [] = if rooted then [] else codes ".." ∷ []
    up (last ∷ rest) = if bytes_eq last (codes "..") then codes ".." ∷ last ∷ rest else rest

unfoldable pub join_slash : List Bytes → Bytes
join_slash [] = []
join_slash (part ∷ []) = part
join_slash (part ∷ (next ∷ parts)) = part ++ 47 ∷ join_slash (next ∷ parts)

unfoldable pub is_rooted : Bytes → Bool
is_rooted [] = false
is_rooted (c ∷ path) = c == 47

unfoldable pub clean : Bytes → Bytes
unfolding is_rooted
clean path =
    let rooted = is_rooted path in
    let cleaned = join_slash (reverse (clean_parts rooted (split_slash path) [])) in
    if rooted then 47 ∷ cleaned else if bytes_eq cleaned [] then codes "." else cleaned

-- Whether `validateGitPath` of create_pr_usecase.go accepts a path.
unfoldable pub validate_git_path : Bytes → Bool
validate_git_path git_path =
    if bytes_eq git_path []
    then false
    else if contains git_path (codes "..") || contains git_path (0 ∷ [])
    then false
    else not (contains (clean git_path) (codes ".."))
