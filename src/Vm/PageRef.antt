-- ===== src/Vm/PageRef.antt =====
-- kernel/vm/vm_page_ref.c and vm_pager.c: reference counts of physical pages.
-- The singly linked list `g_vm_page_refs` is a list of its nodes, newest first.
use rodnix.Prelude.{
  ℕ, ◌-◌, Option, none, some, List, [], ◌∷◌, ◌==◌, if◌then◌else◌, add32, Status, ok, invalid, nomem,
  notfound,
}
use rodnix.Vm.Machine.{Machine}

-- `vm_page_ref_node_t`; `addr` is the node's own address.
pub record PageRef : Type 0 where
  pub addr : ℕ
  pub phys : ℕ
  pub refs : ℕ

-- vm_page_ref_find, as the count that it finds.
unfoldable pub find : ℕ → List PageRef → Option ℕ
find phys [] = none
find phys (n ∷ ns) = if n.phys == phys then some n.refs else find phys ns

-- `node->refs++` on the node that vm_page_ref_find returns.
unfoldable pub bump : ℕ → List PageRef → List PageRef
bump phys [] = []
bump phys (n ∷ ns) =
    if n.phys == phys then record n { refs = add32 n.refs 1 } ∷ ns else n ∷ bump phys ns

-- The walk of vm_page_ref_release: the list after it, and what it found.
pub data Dropped : Type 0 where
  missing : Dropped
  kept : Dropped
  freed : ℕ → Dropped

unfoldable pub drop_ref : ℕ → List PageRef → List PageRef × Dropped
drop_ref phys [] = ([], missing)
drop_ref phys (n ∷ ns) =
    let left = n.refs - 1 in
    let (ns', d) = drop_ref phys ns in
    if n.phys == phys
    then (if left == 0 then (ns, freed n.addr) else (record n { refs = left } ∷ ns, kept))
    else (n ∷ ns', d)

module _ (m : Machine) where
  open m use {State}

  -- The page reference table beside the machine that it lives on.
  pub record Refs : Type 0 where
    pub hw : State
    pub nodes : List PageRef

module _ (m : Machine) where
  unfoldable pub add_new : Refs m → ℕ → Status × Refs m
  add_new r phys = if phys == 0 then (invalid, r) else elim (find phys r.nodes) [
    | some _ ↦ (ok, record r { nodes = bump phys r.nodes })
    | none ↦
        let (node, hw') = m.kmalloc r.hw 24 in
        if node == 0 then (nomem, record r { hw = hw' }) else (
          ok,
          record { hw = hw'; nodes = record { addr = node; phys = phys; refs = 1 } ∷ r.nodes },
        )
  ]

  unfoldable pub retain : Refs m → ℕ → Status × Refs m
  retain = add_new

  -- `pmm_free_page` and then `kfree` run on the node that lost its last reference.
  unfoldable pub release : Refs m → ℕ → Status × Refs m
  release r phys =
      if phys == 0
      then (invalid, r)
      else let (ns, d) = drop_ref phys r.nodes in
        elim d [
          | missing ↦ (notfound, r)
          | kept ↦ (ok, record r { nodes = ns })
          | freed node ↦ (ok, record { hw = m.kfree (m.free_page r.hw phys) node; nodes = ns })
        ]

  -- vm_pager_alloc_zero_page.
  unfoldable pub alloc_zero_page : Refs m → ℕ × Refs m
  alloc_zero_page r =
      let (phys, hw') = m.alloc_page r.hw in
      if phys == 0
      then (0, record r { hw = hw' })
      else (phys, (add_new (record r { hw = m.zero_page hw' phys }) phys).1)
