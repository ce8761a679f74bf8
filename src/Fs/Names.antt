-- ===== src/Fs/Names.antt =====
-- The calls of kernel/fs/vfs.c that take paths: mkdir, unlink, rename, open, close, dup, stat and
-- truncate.
use rodnix.Prelude.{
  ℕ, zero, suc, Bool, true, false, not, Option, none, some, List, [], ◌∷◌, ◌==◌, ◌||◌, ◌&&◌,
  if◌then◌else◌, take, Status, ok, invalid, nomem, notfound, busy, denied, unsupported, is_ok,
  Result, done, fail,
}
use rodnix.Fs.Host.{Host}
use rodnix.Fs.Path.{slash, same_bytes}
use rodnix.Fs.Node.{Node, File, Tree}
use rodnix.Fs.Store.{World, at, node_at, node_retain, node_release, create_node}
use rodnix.Fs.Lookup.{find_child, lookup, resolve_parent, cache_reset, is_dir_at}
use rodnix.Fs.File.{resize_file}
use rodnix.Vm.Map.{has_bit}

-- `node->inode && node->inode->fs_tag == VFS_FS_TAG_EXT2`.
abbrev pub on_ext2 : Option Node → Bool
on_ext2 none = false
on_ext2 (some n) = elim n.inode [ none ↦ false | some i ↦ i.fs_tag == 1 ]

abbrev pub has_children : Node → Bool
has_children n = elim n.children [ [] ↦ false | _ ∷ _ ↦ true ]

-- The list of siblings without a node.
abbrev pub unlink_sibling : ℕ → List ℕ → List ℕ
unlink_sibling p [] = []
unlink_sibling p (q ∷ qs) = if q == p then qs else q ∷ unlink_sibling p qs

module _ (m : Host) where
  -- The node without its child.
  abbrev pub drop_child : World m → ℕ → ℕ → World m
  drop_child w dir child = elim (node_at m w dir) [
    | none ↦ w
    | some d ↦ at m w dir (some (record d { children = unlink_sibling child d.children }))
  ]

  -- vfs_mkdir.
  unfoldable pub mkdir : World m → List ℕ → Status × World m
  mkdir w path =
      if w.vfs.tree.root == 0
      then (invalid, w)
      else if same_bytes path (slash ∷ [])
      then (ok, w)
      else elim (resolve_parent w.vfs.tree path) [
        | none ↦ (notfound, w)
        | some (parent, leaf) ↦
            let (p, w') = create_node m w parent leaf true in
            if on_ext2 (node_at m w parent)
            then (unsupported, w)
            else if not (find_child w.vfs.tree parent leaf == 0)
            then (ok, w)
            else if p == 0
            then (nomem, w')
            else (ok, w')
      ]

  -- The end of vfs_unlink: the node leaves its directory, and the tree drops its reference.
  unfoldable pub unlink_node : World m → ℕ → Node → World m
  unlink_node w p n =
      let w1 = drop_child w n.parent p in
      let marked : Option Node = elim (node_at m w1 p) [
        | none ↦ none
        | some n' ↦ some (record n' { unlinked = true; parent = 0 })
      ] in
      let w2 = at m w1 p marked in node_release m (record w2 { vfs = cache_reset w2.vfs }) p

  -- vfs_unlink.
  unfoldable pub unlink : World m → List ℕ → Status × World m
  unlink w path =
      let (p, s) = lookup w.vfs path in
      let w1 = record w { vfs = s } in
      if not w.vfs.ready
      then (invalid, w)
      else if (p == 0) || (p == s.tree.root)
      then (notfound, w1)
      else elim (node_at m w1 p) [
        | none ↦ (notfound, w1)
        | some n ↦
            if on_ext2 (some n)
            then (unsupported, w1)
            else if n.is_dir && has_children n
            then (busy, w1)
            else if n.parent == 0
            then (invalid, w1)
            else (ok, unlink_node w1 p n)
      ]

  -- The walk of vfs_is_ancestor_dir, with the rounds that are left; none is a walk that does not
  -- end in them.
  unfoldable pub is_ancestor_dir : ℕ → Tree → ℕ → ℕ → Option Bool
  is_ancestor_dir zero t ancestor cur = none
  is_ancestor_dir (suc n) t ancestor cur =
      let up : ℕ = elim (t.node cur) [ none ↦ 0 | some c ↦ c.parent ] in
      let rest = is_ancestor_dir n t ancestor up in
      if cur == 0 then some false else if cur == ancestor then some true else rest

  -- The end of vfs_rename.
  unfoldable pub move_node : World m → ℕ → ℕ → ℕ → List ℕ → World m
  move_node w p old_parent new_parent leaf =
      let w1 = drop_child w old_parent p in
      let w2 : World m = elim (node_at m w1 new_parent) [
        | none ↦ w1
        | some d ↦ at m w1 new_parent (some (record d { children = p ∷ d.children }))
      ] in
      let w3 : World m = elim (node_at m w2 p) [
        | none ↦ w2
        | some n ↦ at m w2 p (some (record n { parent = new_parent; name = take 31 leaf }))
      ] in
      record w3 { vfs = cache_reset w3.vfs }

  -- vfs_rename, once both ends are resolved; `rounds` are those of vfs_is_ancestor_dir.
  unfoldable pub rename_at : ℕ → World m → ℕ → List ℕ → ℕ → List ℕ → Option (Status × World m)
  rename_at rounds w old_parent old_leaf new_parent new_leaf =
      let t = w.vfs.tree in
      let p = find_child t old_parent old_leaf in
      let moved = move_node w p old_parent new_parent new_leaf in
      if p == 0
      then some (notfound, w)
      else if on_ext2 (node_at m w p) || on_ext2 (node_at m w new_parent)
      then some (unsupported, w)
      else if not (find_child t new_parent new_leaf == 0)
      then some (busy, w)
      else if is_dir_at t p
      then elim (is_ancestor_dir rounds t p new_parent) [
        | none ↦ none
        | some true ↦ some (invalid, w)
        | some false ↦ some (ok, moved)
      ]
      else some (ok, moved)

  -- vfs_rename.
  unfoldable pub rename : ℕ → World m → List ℕ → List ℕ → Option (Status × World m)
  rename rounds w old_path new_path =
      if not w.vfs.ready
      then some (invalid, w)
      else if same_bytes old_path (slash ∷ []) || same_bytes new_path (slash ∷ [])
      then some (denied, w)
      else if same_bytes old_path new_path
      then some (ok, w)
      else elim (resolve_parent w.vfs.tree old_path) [
        | none ↦ some (notfound, w)
        | some (old_parent, old_leaf) ↦ elim (resolve_parent w.vfs.tree new_path) [
          | none ↦ some (notfound, w)
          | some (new_parent, new_leaf) ↦
              if same_bytes old_leaf [] || same_bytes new_leaf []
              then some (notfound, w)
              else rename_at rounds w old_parent old_leaf new_parent new_leaf
        ]
      ]

  -- The end of vfs_open, with the node: VFS_OPEN_WRITE is 2 and VFS_OPEN_TRUNC is 8.
  unfoldable pub open_node : ℕ → World m → ℕ → ℕ → Option (Result File × World m)
  open_node rounds w p flags = elim (node_at m w p) [
    | none ↦ some (fail invalid, w)
    | some n ↦ elim n.inode [
      | none ↦ some (fail invalid, w)
      | some _ ↦
          let f : File = record { node = p; pos = 0; writable = has_bit flags 2 } in
          let w1 = node_retain m w p in
          let truncated : Option (Result File × World m) = elim (resize_file m rounds w1 f 0) [
            | none ↦ none
            | some (rc, f', w2) ↦
                if is_ok rc then some (done f', w2) else some (fail rc, node_release m w2 p)
          ] in
          if n.is_dir
          then some (fail invalid, w)
          else if has_bit flags 8
          then truncated
          else some (done f, w1)
    ]
  ]

  -- vfs_open; VFS_OPEN_CREATE is 4.
  unfoldable pub open_file : ℕ → World m → List ℕ → ℕ → Option (Result File × World m)
  open_file rounds w path flags =
      let (p, s) = lookup w.vfs path in
      let w1 = record w { vfs = s } in
      if not w.vfs.ready
      then some (fail invalid, w)
      else if not (p == 0)
      then open_node rounds w1 p flags
      else if not (has_bit flags 4)
      then some (fail notfound, w1)
      else elim (resolve_parent s.tree path) [
        | none ↦ some (fail notfound, w1)
        | some (parent, leaf) ↦
            let (q, w2) = create_node m w1 parent leaf false in
            if on_ext2 (node_at m w1 parent)
            then some (fail unsupported, w1)
            else if q == 0
            then some (fail nomem, w2)
            else open_node rounds w2 q flags
      ]

  -- vfs_close.
  unfoldable pub close : World m → File → File × World m
  close w f = (
    record { node = 0; pos = 0; writable = false },
    if f.node == 0 then w else node_release m w f.node,
  )

  -- vfs_file_dup.
  unfoldable pub file_dup : World m → File → Result File × World m
  file_dup w f = if f.node == 0 then (fail invalid, w) else (done f, node_retain m w f.node)

  -- vfs_stat: whether the node is a directory, and its size.
  unfoldable pub stat : World m → List ℕ → Result (Bool × ℕ) × World m
  stat w path =
      let (p, s) = lookup w.vfs path in
      let w1 = record w { vfs = s } in
      if not w.vfs.ready then (fail invalid, w) else elim (node_at m w1 p) [
        | none ↦ (fail notfound, w1)
        | some n ↦ elim n.inode [
          | none ↦ (fail notfound, w1)
          | some i ↦ if p == 0 then (fail notfound, w1) else (done (n.is_dir, i.size), w1)
        ]
      ]

  -- vfs_truncate; SIZE_MAX bounds every `uint64_t`.
  unfoldable pub truncate : ℕ → World m → List ℕ → ℕ → Option (Status × World m)
  truncate rounds w path size =
      let (p, s) = lookup w.vfs path in
      let w1 = record w { vfs = s } in
      let f : File = record { node = p; pos = 0; writable = true } in
      let resized : Option (Status × World m) = elim (resize_file m rounds w1 f size) [
        | none ↦ none
        | some (rc, _, w2) ↦ some (rc, w2)
      ] in
      if not w.vfs.ready then some (invalid, w) else elim (node_at m w1 p) [
        | none ↦ some (notfound, w1)
        | some n ↦ elim n.inode [
          | none ↦ some (notfound, w1)
          | some i ↦ if (p == 0) || n.is_dir then some (notfound, w1) else resized
        ]
      ]
