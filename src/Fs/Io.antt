-- ===== src/Fs/Io.antt =====
-- vfs_read, vfs_write, vfs_seek, vfs_ftruncate, vfs_fstat and vfs_fs_set_file_data of
-- kernel/fs/vfs.c. A count of bytes is returned as the `int` that the source converts it to.
use rodnix.Prelude.{
  ℕ, to_int, ◌*◌, ◌-◌, ◌/◌, ◌%◌, ◌^◌, zero, suc, ℤ, pos, negsuc, ◌+ℤ◌, Bool, true, not, Option,
  none, some, List, [], ◌++◌, ◌==◌, ◌||◌, ◌&&◌, ltb, if◌then◌else◌, take, drop, replicate, length,
  add64, word, min, max, Status, ok, invalid, nomem, notfound, unsupported, is_ok, Result, done,
  fail,
}
use rodnix.Fs.Host.{Host}
use rodnix.Fs.Node.{Inode, File}
use rodnix.Fs.Store.{World, node_at}
use rodnix.Fs.File.{
  is_console, is_null, is_zero, is_blockdev, blit, grow_inode, set_inode, resize_file, read_plain,
  write_plain,
}

module _ (m : Host) where
  -- The sectors that the loop of vfs_read copies for a block device, with the rounds that are left;
  -- `off` is the position, and the sector size is not 0.
  unfoldable pub read_sectors : ℕ → m.State → List ℕ → ℕ → ℕ → ℕ → Result (List ℕ) × m.State
  read_sectors zero hw name sector off left = (done [], hw)
  read_sectors (suc n) hw name sector off left =
      let inside = off % sector in
      let chunk = min left (sector - inside) in
      let (rc, bytes, hw1) = m.bdev_read hw name (off / sector) in
      let (rest, hw2) = read_sectors n hw1 name sector (add64 off chunk) (left - chunk) in
      let joined : Result (List ℕ) = elim rest [
        | fail e ↦ fail e
        | done more ↦ done (take chunk (drop inside bytes) ++ more)
      ] in
      if left == 0 then (done [], hw) else if is_ok rc then (joined, hw2) else (fail rc, hw1)

  -- The branch of vfs_read for a block device; its loop has a round for each byte.
  unfoldable pub read_blockdev : World m → File → List ℕ → ℕ → Result (ℤ × List ℕ) × File × World m
  read_blockdev w f name size = elim (m.bdev_sector_size w.hw name) [
    | none ↦ (fail notfound, f, w)
    | some sector ↦
        let (bounce, hw1) = m.kmalloc w.hw sector in
        let (r, hw2) = read_sectors size hw1 name sector f.pos size in
        let w' = record w { hw = m.kfree hw2 bounce } in
        if sector == 0
        then (fail notfound, f, w)
        else if size == 0
        then (done (pos 0, []), f, w)
        else if bounce == 0
        then (fail nomem, f, record w { hw = hw1 })
        else elim r [
          | fail e ↦ (fail e, f, w')
          | done bytes ↦ (done (to_int size, bytes), record f { pos = add64 f.pos size }, w')
        ]
  ]

  -- vfs_read: the count that it returns, and the bytes read.
  unfoldable pub read : World m → File → ℕ → Result (ℤ × List ℕ) × File × World m
  read w f size = elim (node_at m w f.node) [
    | none ↦ (fail invalid, f, w)
    | some n ↦ elim n.inode [
      | none ↦ (fail invalid, f, w)
      | some i ↦
          let (r, hw) = m.tty_read w.hw size f.writable in
          if f.node == 0
          then (fail invalid, f, w)
          else if is_console i
          then (r, f, record w { hw = hw })
          else if is_null i
          then (done (pos 0, []), f, w)
          else if is_zero i
          then (done (to_int size, replicate size 0), f, w)
          else if is_blockdev i
          then read_blockdev w f n.name size
          else read_plain m w f i size
    ]
  ]

  -- The branch of vfs_write for a file on ext2.
  unfoldable pub write_ext2 :
      ℕ → World m → File → Inode → List ℕ → Option (Result ℤ × File × World m)
  write_ext2 rounds w f i bytes =
      let n = length bytes in
      let end = add64 f.pos n in
      let final_size = max end i.size in
      let (rc, hw) = m.ext2_writeback w.hw f.node f.pos bytes final_size in
      let need = not (i.data_addr == 0) && ltb i.capacity end in
      let grown = if need then grow_inode m rounds hw i end else some (true, hw, i) in
      if not (is_ok rc) then some (fail rc, f, record w { hw = hw }) else elim grown [
        | none ↦ none
        | some (grew, hw', i') ↦
            let size = if ltb i'.size end then end else i'.size in
            let copy = min n (size - f.pos) in
            let buffer =
              if i'.data_addr == 0 then i'.buffer else blit i'.buffer f.pos (take copy bytes) in
            let w' = set_inode m w f.node hw' (record i' { size = size; buffer = buffer }) in
            if grew
            then some (done (to_int n), record f { pos = end }, w')
            else some (fail nomem, f, set_inode m w f.node hw' i')
      ]

  -- The branch of vfs_write for a block device.
  unfoldable pub write_blockdev : World m → File → List ℕ → List ℕ → Result ℤ × File × World m
  write_blockdev w f name bytes = elim (m.bdev_sector_size w.hw name) [
    | none ↦ (fail notfound, f, w)
    | some sector ↦
        let n = length bytes in
        let count = n / sector % 2 ^ 32 in
        let (rc, hw) = m.bdev_write w.hw name (f.pos / sector) (take (count * sector) bytes) in
        if sector == 0
        then (fail notfound, f, w)
        else if n == 0
        then (done (pos 0), f, w)
        else if not (f.pos % sector == 0) || not (n % sector == 0)
        then (fail invalid, f, w)
        else if is_ok rc
        then (done (to_int n), record f { pos = add64 f.pos n }, record w { hw = hw })
        else (fail rc, f, record w { hw = hw })
  ]

  -- vfs_write; none is a loop that does not end in the rounds that are left.
  unfoldable pub write : ℕ → World m → File → List ℕ → Option (Result ℤ × File × World m)
  write rounds w f bytes = elim (node_at m w f.node) [
    | none ↦ some (fail invalid, f, w)
    | some n ↦ elim n.inode [
      | none ↦ some (fail invalid, f, w)
      | some i ↦
          let (r, hw) = m.tty_write w.hw bytes in
          if (f.node == 0) || not f.writable
          then some (fail invalid, f, w)
          else if is_console i
          then some (r, f, record w { hw = hw })
          else if is_null i || is_zero i
          then some (done (to_int (length bytes)), f, w)
          else if i.fs_tag == 1
          then write_ext2 rounds w f i bytes
          else if is_blockdev i
          then some (write_blockdev w f n.name bytes)
          else if n.is_dir
          then some (fail nomem, f, w)
          else write_plain m rounds w f i bytes
    ]
  ]

  -- The base of a seek: SEEK_SET, SEEK_CUR or SEEK_END.
  abbrev seek_base : File → Inode → ℕ → Option ℕ
  seek_base f i whence =
      if whence == 0
      then some 0
      else if whence == 1
      then some f.pos
      else if whence == 2
      then some i.size
      else none

  -- The conversion of a `uint64_t` to `int64_t`.
  abbrev pub to_int64 : ℕ → ℤ
  to_int64 n = if ltb n (2 ^ 63) then pos n else negsuc (word - n - 1)

  -- vfs_seek: the status and the file. A sum that does not fit `int64_t` stays as it is.
  unfoldable pub seek : World m → File → ℤ → ℕ → Status × File
  seek w f off whence = elim (node_at m w f.node) [
    | none ↦ (invalid, f)
    | some n ↦ elim n.inode [
      | none ↦ (invalid, f)
      | some i ↦
          if f.node == 0
          then (invalid, f)
          else if is_console i
          then (unsupported, f)
          else elim (seek_base f i whence) [
            | none ↦ (invalid, f)
            | some base ↦ elim (to_int64 base +ℤ off) [
              | pos next ↦ (ok, record f { pos = next })
              | negsuc _ ↦ (invalid, f)
            ]
          ]
    ]
  ]

  -- vfs_ftruncate; SIZE_MAX bounds every `uint64_t`.
  abbrev pub ftruncate : ℕ → World m → File → ℕ → Option (Status × File × World m)
  ftruncate rounds w f size = resize_file m rounds w f size

  -- vfs_fstat: whether the node is a directory, and its size.
  abbrev fstat : World m → File → Result (Bool × ℕ)
  fstat w f = elim (node_at m w f.node) [
    | none ↦ fail invalid
    | some n ↦ elim n.inode [
      | none ↦ fail invalid
      | some i ↦ if f.node == 0 then fail invalid else done (n.is_dir, i.size)
    ]
  ]

  -- vfs_fs_set_file_data, with data that is not NULL.
  abbrev set_file_data : ℕ → World m → ℕ → List ℕ → Option (Status × World m)
  set_file_data rounds w p bytes = elim (node_at m w p) [
    | none ↦ some (invalid, w)
    | some n ↦ elim n.inode [
      | none ↦ some (invalid, w)
      | some i ↦
          if (p == 0) || n.is_dir
          then some (invalid, w)
          else elim (grow_inode m rounds w.hw i (length bytes)) [
            | none ↦ none
            | some (grew, hw, i') ↦
                let stored : Inode = record i' {
                  buffer = blit i'.buffer 0 bytes;
                  size = length bytes;
                } in
                if grew
                then some (ok, set_inode m w p hw stored)
                else some (nomem, set_inode m w p hw i')
          ]
    ]
  ]
