-- ===== src/Fs/Path.antt =====
-- Paths in kernel/fs/vfs.c. A C string is the list of its bytes before the NUL.
use rodnix.Prelude.{
  ℕ, zero, suc, ◌-◌, Bool, true, false, Option, none, some, List, [], ◌∷◌, ◌==◌, ◌&&◌,
  if◌then◌else◌, map, take,
}

abbrev pub slash : ℕ
slash = b'/'

-- strcmp(a, b) == 0.
abbrev pub same_bytes : List ℕ → List ℕ → Bool
same_bytes [] [] = true
same_bytes [] (_ ∷ _) = false
same_bytes (_ ∷ _) [] = false
same_bytes (a ∷ xs) (b ∷ ys) = (a == b) && same_bytes xs ys

-- `while (*path == '/') path++`.
unfoldable pub skip_slashes : List ℕ → List ℕ
skip_slashes [] = []
skip_slashes (c ∷ cs) = let rest = skip_slashes cs in if c == slash then rest else c ∷ cs

-- The bytes that vfs_next_component copies, `room` of them at most.
unfoldable pub copy_name : ℕ → List ℕ → List ℕ
copy_name zero cs = []
copy_name (suc room) [] = []
copy_name (suc room) (c ∷ cs) = let rest = copy_name room cs in if c == slash then [] else c ∷ rest

-- `while (*path && *path != '/') path++`.
unfoldable pub skip_name : List ℕ → List ℕ
skip_name [] = []
skip_name (c ∷ cs) = let rest = skip_name cs in if c == slash then c ∷ cs else rest

-- vfs_next_component: the component and the rest of the path.
unfoldable pub next_component : List ℕ → ℕ → Option (List ℕ × List ℕ)
next_component path out_len = elim (skip_slashes path) [
  | [] ↦ none
  | c ∷ cs ↦ some (copy_name (out_len - 1) (c ∷ cs), skip_name (c ∷ cs))
]

-- The pieces of a path between its slashes.
abbrev add_byte : ℕ → List (List ℕ) → List (List ℕ)
add_byte c [] = (c ∷ []) ∷ []
add_byte c (p ∷ ps) = (c ∷ p) ∷ ps

unfoldable pub pieces : List ℕ → List (List ℕ)
pieces [] = [] ∷ []
pieces (c ∷ cs) = if c == slash then [] ∷ pieces cs else add_byte c (pieces cs)

abbrev pub drop_empty : List (List ℕ) → List (List ℕ)
drop_empty [] = []
drop_empty ([] ∷ ps) = drop_empty ps
drop_empty ((c ∷ cs) ∷ ps) = (c ∷ cs) ∷ drop_empty ps

-- What a path means: its pieces that are not empty, each cut to 31 bytes.
unfoldable pub components : List ℕ → List (List ℕ)
unfolding pieces
components path = map (take 31) (drop_empty (pieces path))
