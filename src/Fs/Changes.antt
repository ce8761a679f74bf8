-- ===== src/Fs/Changes.antt =====
-- The path cache of kernel/fs/vfs.c after unlink and rename.
use rodnix.Prelude.{
  denied, invalid, notfound, busy, unsupported, ◌==◌, ℕ, zero, suc, ◌≤◌, ◌≡◌, ◌≢◌, refl, sym, subst,
  Bool, true, false, not, ◌||◌, ◌&&◌, Option, Option-cases, none, some, List, [], ◌∷◌, replicate,
  length, inl, inr, arith, Status, ok, if◌then◌else◌,
}
use rodnix.Fs.Path.{same_bytes, slash}
use rodnix.Fs.Host.{Host}
use rodnix.Fs.Node.{Node, CacheEntry, Vfs}
use rodnix.Fs.Lookup.{lookup, hits, cache_reset, resolve_parent, is_dir_at, find_child}
use rodnix.Fs.Coherent.{IsCoherent, AllEntries, Answers, lookup-IsCoherent}
use rodnix.Fs.Store.{World, node_at, node_release, free_node}
use rodnix.Fs.Names.{
  unlink, has_children, on_ext2, unlink_node, rename, rename_at, move_node, is_ancestor_dir,
}

-- A cache without an entry.
abbrev pub Blank : Vfs → Type 0
Blank s = s.cache ≡ replicate 64 (record { path = []; node = 0; gen = 0; node_gen = 0 })

pub AllEntries-replicate :
    (P : CacheEntry → Type 0) (n : ℕ) (e : CacheEntry) → P e → AllEntries P (replicate n e)
AllEntries-replicate P zero e h = tt
AllEntries-replicate P (suc n) e h = (h, AllEntries-replicate P n e h)

pub Blank-IsCoherent : (s : Vfs) → Blank s → IsCoherent s
unfolding hits
Blank-IsCoherent s b = record {
  agrees = λ path. subst (AllEntries (Answers s.tree s.cache_gen path)) (sym b) (
      AllEntries-replicate (Answers s.tree s.cache_gen path) 64
        (record { path = []; node = 0; gen = 0; node_gen = 0 }) (λ h. ground (arith, h)));
}

if-holds {ℓ} :
    {A : Type ℓ} (P : A → Type 0) (b : Bool) {x y : A} → P x → P y → P (if b then x else y)
if-holds P true p q = p
if-holds P false p q = q

module _ (m : Host) where
  abbrev Kept2 : Status × World m → Type 0
  Kept2 r = IsCoherent r.1.vfs

  record Kept (o : Option (Status × World m)) : Type 0 where
    kept : (rc : Status) (w' : World m) → o ≡ some (rc, w') → IsCoherent w'.vfs

  none-Kept : Kept none
  none-Kept = record { kept = λ rc w' h. cc h }

  some-Kept : (rc : Status) (w : World m) → IsCoherent w.vfs → Kept (some (rc, w))
  some-Kept rc w c = record {
    kept = λ rc' w' h.
        subst
          (λ (r : Option (Status × World m)). elim r [
            | none ↦ Unit {0}
            | some q ↦ IsCoherent q.1.vfs
          ])
          h c;
  }

  node_release-Blank : (w : World m) (p : ℕ) → Blank w.vfs → Blank (node_release m w p).vfs
  unfolding node_release free_node
  node_release-Blank w p b = elim (Option-cases (node_at m w p)) [
    | inl e ↦ rw (e, node_release) b
    | inr (n, e) ↦ ground (arith, b, e)
  ]

  unlink_node-Blank : (w : World m) (p : ℕ) (n : Node) → Blank (unlink_node m w p n).vfs
  unfolding unlink_node cache_reset
  unlink_node-Blank w p n = node_release-Blank _ p refl

  move_node-Blank :
      (w : World m) (p old_parent new_parent : ℕ) (leaf : List ℕ)
      → Blank (move_node m w p old_parent new_parent leaf).vfs
  unfolding move_node cache_reset
  move_node-Blank w p old_parent new_parent leaf = refl

  -- When the path cache agrees with the name space, the path has at most 63 bytes and there is
  -- a root, the cache agrees with the name space after vfs_unlink too.
  pub unlink-IsCoherent :
      (w : World m) (path : List ℕ)
      → IsCoherent w.vfs
      → length path ≤ 63
      → w.vfs.tree.root ≢ 0
      → IsCoherent (unlink m w path).1.vfs
  unfolding unlink
  unlink-IsCoherent w path c l r =
      let c1 = (lookup-IsCoherent w.vfs path c l r).1 in
      let w1 : World m = record w { vfs = (lookup w.vfs path).1 } in
      if-holds Kept2 (not w.vfs.ready) c (
        if-holds Kept2 ((lookup w.vfs path).0 == 0 || (lookup w.vfs path).0 == w1.vfs.tree.root) c1
          (elim (node_at m w1 (lookup w.vfs path).0)
            as (λ o. Kept2 (elim o [
              | none ↦ (notfound, w1)
              | some n ↦
                  (if on_ext2 (some n)
                    then (unsupported, w1)
                    else if n.is_dir && has_children n
                    then (busy, w1)
                    else if n.parent == 0
                    then (invalid, w1)
                    else (ok, unlink_node m w1 (lookup w.vfs path).0 n))
            ])) [
              | none ↦ c1
              | some n ↦ if-holds Kept2 (on_ext2 (some n)) c1 (
                  if-holds Kept2 (n.is_dir && has_children n) c1 (
                    if-holds Kept2 (n.parent == 0) c1 (
                      Blank-IsCoherent (unlink_node m w1 (lookup w.vfs path).0 n).vfs
                        (unlink_node-Blank w1 (lookup w.vfs path).0 n))))
            ]))

  rename_at-Kept :
      (rounds : ℕ) (w : World m) (old_parent : ℕ) (old_leaf : List ℕ) (new_parent : ℕ)
      (new_leaf : List ℕ)
      → IsCoherent w.vfs
      → Kept (rename_at m rounds w old_parent old_leaf new_parent new_leaf)
  unfolding rename_at
  rename_at-Kept rounds w old_parent old_leaf new_parent new_leaf c =
      let p = find_child w.vfs.tree old_parent old_leaf in
      let moved =
        Blank-IsCoherent (move_node m w p old_parent new_parent new_leaf).vfs
          (move_node-Blank w p old_parent new_parent new_leaf) in
      if-holds Kept (p == 0) (some-Kept notfound w c) (
        if-holds Kept (on_ext2 (node_at m w p) || on_ext2 (node_at m w new_parent))
          (some-Kept unsupported w c)
          (if-holds Kept (not (find_child w.vfs.tree new_parent new_leaf == 0)) (some-Kept busy w c)
            (if-holds Kept (is_dir_at w.vfs.tree p)
              (elim (is_ancestor_dir m rounds w.vfs.tree p new_parent)
                as (λ o. Kept (elim o [
                  | none ↦ none
                  | some true ↦ some (invalid, w)
                  | some false ↦ some (ok, move_node m w p old_parent new_parent new_leaf)
                ])) [
                  | none ↦ none-Kept
                  | some true ↦ some-Kept invalid w c
                  | some false ↦ some-Kept ok (move_node m w p old_parent new_parent new_leaf) moved
                ])
              (some-Kept ok (move_node m w p old_parent new_parent new_leaf) moved))))

  rename-Kept :
      (rounds : ℕ) (w : World m) (old_path new_path : List ℕ)
      → IsCoherent w.vfs
      → Kept (rename m rounds w old_path new_path)
  unfolding rename
  rename-Kept rounds w old_path new_path c =
      let same = some-Kept notfound w c in
      if-holds Kept (not w.vfs.ready) (some-Kept invalid w c) (
        if-holds Kept (same_bytes old_path (slash ∷ []) || same_bytes new_path (slash ∷ []))
          (some-Kept denied w c)
          (if-holds Kept (same_bytes old_path new_path) (some-Kept ok w c)
            (elim (resolve_parent w.vfs.tree old_path)
              as (λ o. Kept (elim o [
                | none ↦ some (notfound, w)
                | some (old_parent, old_leaf) ↦ elim (resolve_parent w.vfs.tree new_path) [
                  | none ↦ some (notfound, w)
                  | some (new_parent, new_leaf) ↦
                      if same_bytes old_leaf [] || same_bytes new_leaf []
                      then some (notfound, w)
                      else rename_at m rounds w old_parent old_leaf new_parent new_leaf
                ]
              ])) [
                | none ↦ same
                | some (old_parent, old_leaf) ↦
                    elim (resolve_parent w.vfs.tree new_path)
                      as (λ o. Kept (elim o [
                        | none ↦ some (notfound, w)
                        | some (new_parent, new_leaf) ↦
                            if same_bytes old_leaf [] || same_bytes new_leaf []
                            then some (notfound, w)
                            else rename_at m rounds w old_parent old_leaf new_parent new_leaf
                      ])) [
                        | none ↦ same
                        | some (new_parent, new_leaf) ↦
                            if-holds Kept (same_bytes old_leaf [] || same_bytes new_leaf []) same
                              (rename_at-Kept rounds w old_parent old_leaf new_parent new_leaf c)
                      ]
              ])))

  -- When the path cache agrees with the name space and vfs_rename returns, with whatever code,
  -- the cache agrees with the name space that vfs_rename leaves.
  pub rename-IsCoherent :
      (rounds : ℕ) (w : World m) (old_path new_path : List ℕ) (rc : Status) (w' : World m)
      → IsCoherent w.vfs
      → rename m rounds w old_path new_path ≡ some (rc, w')
      → IsCoherent w'.vfs
  rename-IsCoherent rounds w old_path new_path rc w' c h =
      (rename-Kept rounds w old_path new_path c).kept rc w' h
