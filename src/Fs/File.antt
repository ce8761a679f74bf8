-- ===== src/Fs/File.antt =====
-- The files of kernel/fs/vfs.c: growing, resizing, reading, writing and seeking.
use rodnix.Prelude.{
  ℕ, ℤ, to_int, pos, ◌+◌, ◌-◌, ◌*◌, ◌%◌, zero, suc, Bool, true, false, not, Option, none, some,
  List, [], ◌∷◌, ◌==◌, ◌||◌, ◌&&◌, ltb, leb, if◌then◌else◌, length, add64, word, min, Status, ok,
  invalid, nomem, unsupported, is_ok, Result, done, fail,
}
use rodnix.Fs.Host.{Host}
use rodnix.Fs.Node.{Inode, File}
use rodnix.Fs.Store.{World, at, node_at}
use rodnix.Vm.Map.{has_bit}

-- The flags of an inode, and VFS_FS_TAG_EXT2.
abbrev pub is_console : Inode → Bool
is_console i = has_bit i.flags 1

abbrev pub is_null : Inode → Bool
is_null i = has_bit i.flags 2

abbrev pub is_zero : Inode → Bool
is_zero i = has_bit i.flags 4

abbrev pub is_chardev : Inode → Bool
is_chardev i = has_bit i.flags 8

abbrev pub is_blockdev : Inode → Bool
is_blockdev i = has_bit i.flags 16

-- The bytes of a buffer from an offset on, and a buffer with bytes written at an offset.
abbrev pub slice : (ℕ → ℕ) → ℕ → ℕ → List ℕ
slice buf off zero = []
slice buf off (suc n) = buf off ∷ slice buf (off + 1) n

unfoldable pub blit : (ℕ → ℕ) → ℕ → List ℕ → ℕ → ℕ
blit buf off [] i = buf i
blit buf off (b ∷ bs) i = if i == off then b else blit buf (off + 1) bs i

-- memset(data + from, 0, to - from).
abbrev pub clear : (ℕ → ℕ) → ℕ → ℕ → ℕ → ℕ
clear buf from to i = if leb from i && ltb i to then 0 else buf i

-- `while (new_cap < needed) new_cap *= 2`, with the rounds that are left.
unfoldable pub double : ℕ → ℕ → ℕ → Option ℕ
double zero cap needed = none
double (suc n) cap needed =
    let rest = double n (cap * 2 % word) needed in if ltb cap needed then rest else some cap

module _ (m : Host) where
  -- vfs_grow_file on the inode of a regular file: whether it succeeds. None is a loop that does
  -- not end in the rounds that are left.
  unfoldable pub grow_inode : ℕ → m.State → Inode → ℕ → Option (Bool × m.State × Inode)
  grow_inode rounds hw i needed =
      let cap0 = if i.capacity == 0 then 64 else i.capacity in
      let grown : Option (Bool × m.State × Inode) = elim (double rounds cap0 needed) [
        | none ↦ none
        | some cap ↦
            let (p, hw1) = m.kmalloc hw cap in
            let copied = λ (k : ℕ).
              if not (i.data_addr == 0) && ltb k i.size then i.buffer k else m.stale hw1 p k in
            let hw2 = if i.data_addr == 0 then hw1 else m.kfree hw1 i.data_addr in
            if p == 0
            then some (false, hw1, i)
            else some (true, hw2, record i { data_addr = p; buffer = copied; capacity = cap })
      ] in
      if leb needed i.capacity then some (true, hw, i) else grown

  -- The new inode in its node.
  abbrev pub set_inode : World m → ℕ → m.State → Inode → World m
  set_inode w p hw i = elim (node_at m w p) [
    | none ↦ w
    | some n ↦ at m (record w { hw = hw }) p (some (record n { inode = some i }))
  ]

  -- The end of vfs_resize_file for a file that is not on ext2.
  unfoldable pub resize_plain : ℕ → World m → File → Inode → ℕ → Option (Status × File × World m)
  resize_plain rounds w f i new_size = elim (grow_inode rounds w.hw i new_size) [
    | none ↦ none
    | some (grew, hw, i') ↦
        let cleared =
          if ltb i.size new_size && not (i'.data_addr == 0)
          then clear i'.buffer i.size new_size
          else i'.buffer in
        let w' = set_inode w f.node hw (record i' { buffer = cleared; size = new_size }) in
        let f' = record f { pos = if ltb new_size f.pos then new_size else f.pos } in
        if grew then some (ok, f', w') else some (nomem, f, set_inode w f.node hw i')
  ]

  -- The branch of vfs_resize_file for a file on ext2.
  unfoldable pub resize_ext2 : ℕ → World m → File → Inode → ℕ → Option (Status × File × World m)
  resize_ext2 rounds w f i new_size =
      let (rc, hw) = m.ext2_resize w.hw f.node new_size in
      let need = not (i.data_addr == 0) && ltb i.capacity new_size in
      let grown = if need then grow_inode rounds hw i new_size else some (true, hw, i) in
      if not (is_ok rc) then some (rc, f, record w { hw = hw }) else elim grown [
        | none ↦ none
        | some (grew, hw', i') ↦
            let cleared =
              if not (i'.data_addr == 0) && ltb i'.size new_size
              then clear i'.buffer i'.size new_size
              else i'.buffer in
            let w' = set_inode w f.node hw' (record i' { buffer = cleared; size = new_size }) in
            let f' = record f { pos = if ltb new_size f.pos then new_size else f.pos } in
            if grew then some (ok, f', w') else some (nomem, f, set_inode w f.node hw' i')
      ]

  -- The inode of an open file.
  abbrev pub inode_of : World m → File → Option Inode
  inode_of w f = elim (node_at m w f.node) [ none ↦ none | some n ↦ n.inode ]

  -- vfs_resize_file.
  unfoldable pub resize_file : ℕ → World m → File → ℕ → Option (Status × File × World m)
  resize_file rounds w f new_size = elim (node_at m w f.node) [
    | none ↦ some (invalid, f, w)
    | some n ↦ elim n.inode [
      | none ↦ some (invalid, f, w)
      | some i ↦
          if (f.node == 0) || n.is_dir
          then some (invalid, f, w)
          else if is_console i || is_chardev i || is_blockdev i
          then some (unsupported, f, w)
          else if i.fs_tag == 1
          then resize_ext2 rounds w f i new_size
          else resize_plain rounds w f i new_size
    ]
  ]

  -- The end of vfs_read, for a file with its bytes in memory: the count that is returned as an
  -- `int`, and the bytes read.
  unfoldable pub read_plain : World m → File → Inode → ℕ → Result (ℤ × List ℕ) × File × World m
  read_plain w f i size =
      let to_read = min size (i.size - f.pos) in
      if leb i.size f.pos then (done (pos 0, []), f, w) else (
        done (to_int to_read, slice i.buffer f.pos to_read),
        record f { pos = add64 f.pos to_read },
        w,
      )

  -- The end of vfs_write, for a file with its bytes in memory; the count is returned as an `int`.
  unfoldable pub write_plain :
      ℕ → World m → File → Inode → List ℕ → Option (Result ℤ × File × World m)
  write_plain rounds w f i bytes =
      let end = add64 f.pos (length bytes) in
      elim (grow_inode rounds w.hw i end) [
        | none ↦ none
        | some (grew, hw, i') ↦
            let i'' = record i' {
              buffer = blit i'.buffer f.pos bytes;
              size = if ltb i'.size end then end else i'.size;
            } in
            if grew
            then some
                (done (to_int (length bytes)), record f { pos = end }, set_inode w f.node hw i'')
            else some (fail nomem, f, set_inode w f.node hw i')
      ]
