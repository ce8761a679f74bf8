-- ===== src/Fs/Resize.antt =====
-- vfs_resize_file, which vfs_truncate and vfs_ftruncate of kernel/fs/vfs.c call.
use rodnix.Prelude.{
  append-nil, ap₂, ==_refl, not, ◌==◌, ◌&&◌, if◌then◌else◌, min, ◌∷◌, ◌++◌, replicate, take, ok, ℕ,
  zero, suc, ◌+◌, ◌-◌, ◌≤◌, ◌<◌, ◌^◌, ◌≡◌, ◌≢◌, refl, sym, ap, subst, ◌∙◌, Bool-cases, true,
  ne→==_false, none, some, ltb, arith, inl, inr,
}
use rodnix.Fs.Host.{Host}
use rodnix.Fs.Node.{Inode, Node, File}
use rodnix.Fs.Store.{World, node_at}
use rodnix.Fs.File.{grow_inode, resize_plain, resize_file, set_inode, slice, clear}
use rodnix.Fs.Capacity.{double-loops}
use rodnix.Fs.Contents.{IsRegular, Serves, grow_inode-Grown}
use rodnix.Fs.Buffer.{slice_agree}
use rodnix.Fs.ReadBack.{contents, take-slice, slice-append, slice_eq}

slice_cleared :
    (buf : ℕ → ℕ) (from to off n : ℕ)
    → from ≤ off
    → off + n ≤ to
    → slice (clear buf from to) off n ≡ replicate n 0
slice_cleared buf from to off zero l u = refl
slice_cleared buf from to off (suc n) l u =
    ap₂ (λ x xs. x ∷ xs) (ground (arith, l, u))
      (slice_cleared buf from to (off + 1) n (omega (arith, l)) (omega (arith, u)))

clear_outside : (buf : ℕ → ℕ) (from to k : ℕ) → k < from → clear buf from to k ≡ buf k
clear_outside buf from to k h = ground (arith, h)

take-slice_over : (f : ℕ → ℕ) (off a b : ℕ) → b ≤ a → take a (slice f off b) ≡ slice f off b
take-slice_over f off zero zero h = refl
take-slice_over f off zero (suc b) h = elim h [ ]
take-slice_over f off (suc a) zero h = refl
take-slice_over f off (suc a) (suc b) h =
    ap (λ xs. f off ∷ xs) (take-slice_over f (off + 1) a b (omega (arith, h)))

-- The bytes of the resized file.
resized-contents :
    (i : Inode) (buffer : ℕ → ℕ) (data_addr new_size : ℕ)
    → (data_addr ≡ 0 → new_size ≡ 0)
    → ((k : ℕ) → k < i.size → buffer k ≡ i.buffer k)
    → slice
        (if ltb i.size new_size && not (data_addr == 0)
          then clear buffer i.size new_size
          else buffer)
        0
        new_size
      ≡ take new_size (contents i) ++ replicate (new_size - i.size) 0
resized-contents i buffer data_addr new_size no_data keeps =
    elim (Bool-cases (ltb i.size new_size)) [
      | inl b ↦
          let less : i.size < new_size = ground (arith, b) in
          let ne : data_addr ≢ 0 = λ z. absurd (omega (arith, less, no_data z)) in
          let low = slice_agree (clear buffer i.size new_size) i.buffer 0 i.size (λ k l u.
            clear_outside buffer i.size new_size k (omega (arith, u))
            ∙ keeps k (omega (arith, u))) in
          rw (b, ne→==_false data_addr 0 ne)
            (slice_eq (clear buffer i.size new_size) {x = 0} {m = new_size}
                {n = i.size + (new_size - i.size)} refl (omega (arith, less))
              ∙ slice-append (clear buffer i.size new_size) 0 i.size (new_size - i.size)
              ∙ ap₂ (◌++◌)
                  (low ∙ sym (take-slice_over i.buffer 0 new_size i.size (omega (arith, less))))
                  (slice_eq (clear buffer i.size new_size) {m = new_size - i.size} (omega arith)
                      refl
                    ∙ slice_cleared buffer i.size new_size i.size (new_size - i.size) (omega arith)
                        (omega (arith, less))))
      | inr b ↦
          let more : new_size ≤ i.size = ground (arith, b) in
          let none_left : new_size - i.size ≡ 0 = omega (arith, more) in
          rw (b, none_left)
            (slice_agree buffer i.buffer 0 new_size (λ k l u. keeps k (omega (arith, u, more)))
              ∙ sym (take-slice i.buffer 0 new_size i.size more)
              ∙ sym (append-nil (take new_size (contents i))))
    ]

module _ (m : Host) where
  grow_inode-loops :
      (rounds : ℕ) (hw : m.State) (i : Inode) (needed : ℕ)
      → i.capacity ≡ 0
      → 2 ^ 63 < needed
      → grow_inode m rounds hw i needed ≡ none
  unfolding grow_inode
  grow_inode-loops rounds hw i needed z lt =
      rw (z, grow_inode, double-loops rounds 64 needed (inr (57, refl)) lt) (ground (arith, lt))

  -- vfs_resize_file of a regular file that has no bytes allocated to a size above 2^63 does not
  -- end in any number of rounds of the loop of vfs_grow_file.
  pub resize_file-hangs :
      (rounds : ℕ) (w : World m) (f : File) (n : Node) (i : Inode) (needed : ℕ)
      → node_at m w f.node ≡ some n
      → IsRegular n i
      → f.node ≢ 0
      → i.capacity ≡ 0
      → 2 ^ 63 < needed
      → resize_file m rounds w f needed ≡ none
  unfolding resize_file resize_plain
  resize_file-hangs rounds w f n i needed e r ne z lt =
      rw
        (
          e,
          r.inode,
          resize_file,
          ne→==_false f.node 0 ne,
          r.is_file,
          r.no_console,
          r.no_chardev,
          r.no_blockdev,
          ne→==_false i.fs_tag 1 r.no_ext2,
        )
        (rw (grow_inode-loops rounds w.hw i needed z lt, resize_plain) refl)

  resize_file-grown :
      (w : World m) (f : File) (n : Node) (i : Inode) (new_size : ℕ) (hw' : m.State) (i' : Inode)
      → node_at m w f.node ≡ some n
      → IsRegular n i
      → f.node ≢ 0
      → grow_inode m 64 w.hw i new_size ≡ some (true, hw', i')
      → resize_file m 64 w f new_size
        ≡ some (
          ok,
          record f { pos = if ltb new_size f.pos then new_size else f.pos },
          set_inode m w f.node hw' (record i' {
            buffer =
                if ltb i.size new_size && not (i'.data_addr == 0)
                then clear i'.buffer i.size new_size
                else i'.buffer;
            size = new_size;
          }),
        )
  unfolding resize_file resize_plain
  resize_file-grown w f n i new_size hw' i' e r ne g =
      rw
        (
          e,
          r.inode,
          resize_file,
          ne→==_false f.node 0 ne,
          r.is_file,
          r.no_console,
          r.no_chardev,
          r.no_blockdev,
          ne→==_false i.fs_tag 1 r.no_ext2,
        )
        (rw (g, resize_plain) refl)

  -- vfs_resize_file of a regular file to a size of at most 2^63, when the allocation
  -- succeeds if the file has to grow, ends within 64 rounds of its loop with RDNX_OK; the bytes of the file are the old
  -- ones cut to the new size, with zeros up to it, and the position is moved back to the new
  -- end if it was past it.
  pub resize_file-contents :
      (w : World m) (f : File) (n : Node) (i : Inode) (new_size : ℕ)
      → node_at m w f.node ≡ some n
      → IsRegular n i
      → f.node ≢ 0
      → new_size ≤ 2 ^ 63
      → Serves m w.hw i new_size
      → (w' : World m) × (i' : Inode) × (resize_file m 64 w f new_size
          ≡ some (ok, record f { pos = min f.pos new_size }, w'))
        × (node_at m w' f.node ≡ some (record n { inode = some i' }))
        × (contents i' ≡ take new_size (contents i) ++ replicate (new_size - i.size) 0)
  resize_file-contents w f n i new_size e r ne le serves =
      let g = grow_inode-Grown m w.hw i new_size le r.no_data serves in
      let i1 : Inode = record i {
        data_addr = g.data_addr;
        buffer = g.buffer;
        capacity = g.capacity;
      } in
      let i' : Inode = record i1 {
        buffer =
            if ltb i.size new_size && not (i1.data_addr == 0)
            then clear i1.buffer i.size new_size
            else i1.buffer;
        size = new_size;
      } in
      let pos_eq : (if ltb new_size f.pos then new_size else f.pos) ≡ min f.pos new_size =
        ground arith in
      (
        set_inode m w f.node g.hw' i',
        i',
        subst
            (λ p.
              resize_file m 64 w f new_size
              ≡ some (ok, record f { pos = p }, set_inode m w f.node g.hw' i'))
            pos_eq (resize_file-grown w f n i new_size g.hw' i1 e r ne g.grew),
        rw (e, set_inode, ==_refl f.node) refl,
        resized-contents i g.buffer g.data_addr new_size (λ z. (g.no_data z).1) g.keeps,
      )
