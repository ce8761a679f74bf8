-- ===== src/Fs/Store.antt =====
-- The nodes of kernel/fs/vfs.c: allocation, reference counts and the links of the tree.
use rodnix.Prelude.{
  ℕ, ◌-◌, Bool, true, false, not, Option, none, some, List, [], ◌∷◌, ◌==◌, ◌||◌, if◌then◌else◌,
  take, add32,
}
use rodnix.Fs.Host.{Host}
use rodnix.Fs.Node.{Inode, Node, Vfs, put}
use rodnix.Fs.Lookup.{cache_reset}

module _ (m : Host) where
  open m use {State}

  -- The state of vfs.c beside that of the kernel below it.
  pub record World : Type 0 where
    pub hw : State
    pub vfs : Vfs

-- A write at one node.
abbrev pub set_node : Vfs → ℕ → Option Node → Vfs
set_node s p n = record s { tree = record (s.tree) { node = put s.tree.node p n } }

module _ (m : Host) where
  abbrev pub at : World m → ℕ → Option Node → World m
  at w p n = record w { vfs = set_node w.vfs p n }

  abbrev pub node_at : World m → ℕ → Option Node
  node_at w p = w.vfs.tree.node p

  -- vfs_alloc_node with its vfs_alloc_inode; 80 and 64 are the sizes of a node and an inode.
  unfoldable pub alloc_node : World m → List ℕ → Bool → ℕ × World m
  alloc_node w name is_dir =
      let (p, hw1) = m.kmalloc w.hw 80 in
      let (i, hw2) = m.kmalloc hw1 64 in
      let inode : Inode = record {
        addr = i;
        flags = 0;
        fs_tag = 0;
        size = 0;
        capacity = 0;
        data_addr = 0;
        buffer = λ _. 0;
        node_gen = 0;
      } in
      let n : Node = record {
        name = take 31 name;
        is_dir = is_dir;
        parent = 0;
        children = [];
        inode = some inode;
        ref_count = 1;
        unlinked = false;
      } in
      if p == 0
      then (0, record w { hw = hw1 })
      else if i == 0
      then (0, record w { hw = m.kfree hw2 p })
      else (p, at (record w { hw = hw2 }) p (some n))

  -- The part of vfs_free_node for the inode.
  abbrev free_inode : m.State → Option Inode → m.State
  free_inode hw none = hw
  free_inode hw (some i) = m.kfree (if i.data_addr == 0 then hw else m.kfree hw i.data_addr) i.addr

  -- vfs_free_node.
  unfoldable pub free_node : World m → ℕ → World m
  free_node w p = elim (node_at w p) [
    | none ↦ w
    | some n ↦ at (record w { hw = m.kfree (free_inode w.hw n.inode) p }) p none
  ]

  -- vfs_node_retain.
  unfoldable pub node_retain : World m → ℕ → World m
  node_retain w p = elim (node_at w p) [
    | none ↦ w
    | some n ↦ at w p (some (record n { ref_count = add32 n.ref_count 1 }))
  ]

  -- vfs_node_release.
  unfoldable pub node_release : World m → ℕ → World m
  node_release w p = elim (node_at w p) [
    | none ↦ w
    | some n ↦
        let w' = at w p (some (record n { ref_count = n.ref_count - 1 })) in
        if n.ref_count == 0 then w else if n.ref_count == 1 then free_node w' p else w'
  ]

  -- vfs_add_child.
  unfoldable pub add_child : World m → ℕ → ℕ → Bool × World m
  add_child w dir child = elim (node_at w dir) [
    | none ↦ (false, w)
    | some d ↦ elim (node_at w child) [
      | none ↦ (false, w)
      | some c ↦
          let linked = at w child (some (record c { parent = dir })) in
          if (dir == 0) || (child == 0) || not d.is_dir
          then (false, w)
          else (true, at linked dir (some (record d { children = child ∷ d.children })))
    ]
  ]

  -- vfs_create_node; the node is 0 for NULL.
  unfoldable pub create_node : World m → ℕ → List ℕ → Bool → ℕ × World m
  create_node w parent name is_dir =
      let (p, w1) = alloc_node w name is_dir in
      let (added, w2) = add_child w1 parent p in
      if p == 0
      then (0, w1)
      else if added
      then (p, record w2 { vfs = cache_reset w2.vfs })
      else (0, node_release w1 p)
