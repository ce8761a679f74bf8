-- ===== src/Fs/Lookup.antt =====
-- vfs_find_child, vfs_lookup, vfs_resolve_parent and the path cache of kernel/fs/vfs.c.
use rodnix.Prelude.{
  ℕ, zero, suc, ◌%◌, Bool, true, false, Option, none, some, List, [], ◌∷◌, ◌==◌, ◌&&◌, ◌||◌, not,
  if◌then◌else◌, length, set, take, replicate, add32,
}
use rodnix.Fs.Path.{slash, same_bytes, next_component, skip_slashes}
use rodnix.Fs.Node.{Node, Mount, CacheEntry, Tree, Vfs}

-- The walk of vfs_find_child over the siblings.
unfoldable pub child_named : (ℕ → Option Node) → List ℕ → List ℕ → ℕ
child_named nodes [] name = 0
child_named nodes (p ∷ ps) name =
    let rest = child_named nodes ps name in
    elim (nodes p) [ none ↦ rest | some n ↦ if same_bytes n.name name then p else rest ]

-- vfs_find_child.
unfoldable pub find_child : Tree → ℕ → List ℕ → ℕ
find_child t dir name = elim (t.node dir) [
  | none ↦ 0
  | some d ↦ if (dir == 0) || not d.is_dir then 0 else child_named t.node d.children name
]

-- vfs_find_mount_at, and the step onto the root of what is mounted at a node.
unfoldable pub mount_root : List Mount → ℕ → ℕ
mount_root [] node = 0
mount_root (m ∷ ms) node =
    let rest = mount_root ms node in if m.mountpoint == node then m.root else rest

unfoldable pub cross : Tree → ℕ → ℕ
cross t node = let r = mount_root t.mounts node in if r == 0 then node else r

abbrev pub is_dir_at : Tree → ℕ → Bool
is_dir_at t p = elim (t.node p) [ none ↦ false | some n ↦ n.is_dir ]

-- The loop of vfs_lookup, with the rounds that are left; 32 is sizeof(comp).
unfoldable pub walk : ℕ → Tree → ℕ → List ℕ → ℕ
walk zero t current p = 0
walk (suc n) t current p = elim (next_component p 32) [
  | none ↦ current
  | some (comp, next) ↦
      let child = find_child t current comp in
      let rest = walk n t (cross t child) next in if child == 0 then 0 else rest
]

-- What vfs_lookup finds without its cache.
unfoldable pub resolve : Tree → List ℕ → ℕ
resolve t path = walk (suc (length path)) t t.root path

-- The test of one entry in vfs_cache_lookup; `gen` is vfs_cache_gen.
unfoldable pub hits : Tree → ℕ → List ℕ → CacheEntry → Bool
hits t gen path e =
    let fresh : Bool = elim (t.node e.node) [
      | none ↦ true
      | some n ↦ elim n.inode [ none ↦ true | some i ↦ i.node_gen == e.node_gen ]
    ] in
    (e.gen == gen) && not (same_bytes e.path []) && same_bytes e.path path && fresh

-- vfs_cache_lookup.
unfoldable pub cache_find : Tree → ℕ → List ℕ → List CacheEntry → ℕ
cache_find t gen path [] = 0
cache_find t gen path (e ∷ es) =
    let rest = cache_find t gen path es in if hits t gen path e then e.node else rest

abbrev pub gen_of : Tree → ℕ → ℕ
gen_of t p = elim (t.node p) [ none ↦ 0 | some n ↦ elim n.inode [ none ↦ 0 | some i ↦ i.node_gen ] ]

-- vfs_cache_insert; VFS_CACHE_SIZE is 64, and the path of an entry has room for 63 bytes.
unfoldable pub cache_insert : Vfs → List ℕ → ℕ → Vfs
cache_insert s path p =
    let e : CacheEntry = record {
      path = take 63 path;
      node = p;
      gen = s.cache_gen;
      node_gen = gen_of s.tree p;
    } in
    if p == 0
    then s
    else record s { cache = set s.cache (s.cache_rr % 64) e; cache_rr = add32 s.cache_rr 1 }

-- vfs_cache_reset.
unfoldable pub cache_reset : Vfs → Vfs
cache_reset s = record s {
  cache = replicate 64 (record { path = []; node = 0; gen = 0; node_gen = 0 });
  cache_gen = add32 s.cache_gen 1;
  cache_rr = 0;
}

-- vfs_lookup; the node is 0 for NULL.
unfoldable pub lookup : Vfs → List ℕ → ℕ × Vfs
lookup s path =
    let cached = cache_find s.tree s.cache_gen path s.cache in
    let found = resolve s.tree path in
    if s.tree.root == 0
    then (0, s)
    else if same_bytes path (slash ∷ [])
    then (s.tree.root, s)
    else if not (cached == 0)
    then (cached, s)
    else if found == 0
    then (0, s)
    else (found, cache_insert s path found)

-- The loop of vfs_resolve_parent, with the rounds that are left.
unfoldable pub parent_walk : ℕ → Tree → ℕ → List ℕ → Option (ℕ × List ℕ)
parent_walk zero t current p = none
parent_walk (suc n) t current p = elim (next_component p 32) [
  | none ↦ none
  | some (comp, next) ↦
      let child = find_child t current comp in
      let rest = parent_walk n t (cross t child) next in
      if same_bytes (skip_slashes next) []
      then some (current, comp)
      else if (child == 0) || not (is_dir_at t child)
      then none
      else rest
]

-- vfs_resolve_parent with a leaf of 32 bytes: the directory and the last component.
unfoldable pub resolve_parent : Tree → List ℕ → Option (ℕ × List ℕ)
resolve_parent t path =
    let found = parent_walk (suc (length path)) t t.root path in
    if (t.root == 0) || same_bytes path (slash ∷ []) then none else found
