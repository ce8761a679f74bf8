-- ===== src/Tests/Fs.antt =====
-- The virtual file system on a small tree: /etc/motd and a file /etc/new without bytes.
use rodnix.Prelude.{
  ℕ, pos, to_int, ltb, ◌||◌, ◌+◌, ◌^◌, ◌≡◌, refl, true, false, none, some, List, [], ◌∷◌, ◌++◌,
  length, replicate, ◌==◌, if◌then◌else◌, ok, notfound, done, arith,
}
use rodnix.Fs.Path.{components, next_component, skip_slashes, copy_name, skip_name}
use rodnix.Fs.Host.{Host}
use rodnix.Fs.Node.{Inode, Node, CacheEntry, Tree, Vfs, File}
use rodnix.Fs.Lookup.{
  find_child, child_named, cross, mount_root, resolve_parent, parent_walk, walk, resolve, lookup,
  cache_reset,
}
use rodnix.Fs.Walk.{descend, resolve-descend}
use rodnix.Fs.Coherent.{Stale, IsCoherent, lookup-IsCoherent, lookup-poisons}
use rodnix.Fs.Changes.{Blank-IsCoherent, AllEntries-replicate, rename-IsCoherent}
use rodnix.Fs.Store.{World, node_at}
use rodnix.Fs.File.{slice, double, resize_file}
use rodnix.Fs.Io.{read, write}
use rodnix.Fs.Names.{rename, rename_at, move_node}
use rodnix.Fs.Contents.{IsRegular, Serves, raw}
use rodnix.Fs.ReadBack.{contents, write-read, write-contents, write-leaks}
use rodnix.Fs.Resize.{resize_file-contents, resize_file-hangs}

-- A kernel whose heap hands out ever higher addresses, but no memory for a size of 0 or above
-- 0x10000, and whose memory holds 0xEE.
abbrev pub host : Host
host = record {
  State = ℕ;
  kmalloc = λ s size. if (size == 0) || ltb 0x10000 size then (0, s) else (s + 0x1000, s + 0x1000);
  kfree = λ s p. s;
  stale = λ s p i. 0xEE;
  tty_read = λ s size block. (done (pos 0, []), s);
  tty_write = λ s bytes. (done (to_int (length bytes)), s);
  bdev_sector_size = λ s name. none;
  bdev_read = λ s name lba. (notfound, [], s);
  bdev_write = λ s name lba bytes. (notfound, s);
  ext2_resize = λ s p size. (ok, s);
  ext2_writeback = λ s p off bytes size. (ok, s);
}

abbrev inode_with : ℕ → ℕ → ℕ → (ℕ → ℕ) → Inode
inode_with size capacity address buffer = record {
  addr = 0x100;
  flags = 0;
  fs_tag = 0;
  size = size;
  capacity = capacity;
  data_addr = address;
  buffer = buffer;
  node_gen = 0;
}

abbrev dir : List ℕ → ℕ → List ℕ → Node
dir name parent children = record {
  name = name;
  is_dir = true;
  parent = parent;
  children = children;
  inode = some (inode_with 0 0 0 (λ _. 0));
  ref_count = 1;
  unlinked = false;
}

-- The bytes "hello".
abbrev hello : ℕ → ℕ
hello i = if i == 0 then b'h' else if i == 1 then b'e' else if i == 4 then b'o' else b'l'

abbrev motd : Node
motd = record (dir (b'm' ∷ b'o' ∷ b't' ∷ b'd' ∷ []) 2 []) {
  is_dir = false;
  inode = some (inode_with 5 64 0x8000 hello);
}

abbrev new_file : Node
new_file = record (dir (b'n' ∷ b'e' ∷ b'w' ∷ []) 2 []) { is_dir = false }

abbrev etc : List ℕ
etc = b'e' ∷ b't' ∷ b'c' ∷ []

abbrev small : Tree
small = record {
  node = λ p.
      if p == 1
      then some (dir (b'/' ∷ []) 0 (2 ∷ []))
      else if p == 2
      then some (dir etc 1 (3 ∷ 4 ∷ []))
      else if p == 3
      then some motd
      else if p == 4
      then some new_file
      else none;
  mounts = [];
  root = 1;
}

abbrev blank_entry : CacheEntry
blank_entry = record { path = []; node = 0; gen = 0; node_gen = 0 }

abbrev vfs : Vfs
vfs = record {
  tree = small;
  ready = true;
  cache = replicate 64 blank_entry;
  cache_gen = 1;
  cache_rr = 0;
}

abbrev pub start : World host
start = record { hw = 0x9000; vfs = vfs }

-- "/etc/motd" with doubled slashes.
abbrev motd_path : List ℕ
motd_path = b'/' ∷ b'/' ∷ b'e' ∷ b't' ∷ b'c' ∷ b'/' ∷ b'/' ∷ b'm' ∷ b'o' ∷ b't' ∷ b'd' ∷ []

resolve-descend_example : resolve small motd_path ≡ descend small 1 (components motd_path)
resolve-descend_example = resolve-descend small motd_path

resolve_motd : resolve small motd_path ≡ 3
unfolding resolve walk next_component skip_slashes copy_name skip_name find_child child_named cross
    mount_root
resolve_motd = refl

vfs-IsCoherent : IsCoherent vfs
vfs-IsCoherent = Blank-IsCoherent vfs refl

lookup-IsCoherent_example :
    ((lookup vfs motd_path).0 ≡ resolve small motd_path) × IsCoherent (lookup vfs motd_path).1
lookup-IsCoherent_example =
    lookup-IsCoherent vfs motd_path vfs-IsCoherent (omega arith) (omega arith)

abbrev new_path : List ℕ
new_path = (b'/' ∷ etc) ++ b'/' ∷ b'n' ∷ b'e' ∷ b'w' ∷ []

abbrev old_path : List ℕ
old_path = (b'/' ∷ etc) ++ b'/' ∷ b'o' ∷ b'l' ∷ b'd' ∷ []

abbrev renamed : World host
renamed = elim (rename host 8 start new_path old_path) [ none ↦ start | some r ↦ r.1 ]

rename_new : rename host 8 start new_path old_path ≡ some (ok, renamed)
unfolding rename rename_at move_node resolve_parent parent_walk next_component skip_slashes
    copy_name skip_name find_child child_named cross mount_root cache_reset
rename_new = refl

rename-IsCoherent_example : IsCoherent renamed.vfs
rename-IsCoherent_example =
    rename-IsCoherent host 8 start new_path old_path ok renamed vfs-IsCoherent rename_new

-- 63 bytes that end in "etc/".
abbrev long_path : List ℕ
long_path = replicate 59 b'/' ++ (etc ++ b'/' ∷ [])

abbrev motd_name : List ℕ
motd_name = b'm' ∷ b'o' ∷ b't' ∷ b'd' ∷ []

resolve_long : resolve small (long_path ++ motd_name) ≡ 3
unfolding resolve walk next_component skip_slashes copy_name skip_name find_child child_named cross
    mount_root
resolve_long = refl

lookup-poisons_example :
    (lookup (lookup vfs (long_path ++ motd_name)).1 long_path).0
    ≡ resolve small (long_path ++ motd_name)
lookup-poisons_example =
    lookup-poisons vfs long_path motd_name
      (AllEntries-replicate (Stale 1) 64 blank_entry (λ e. omega (arith, e))) refl (omega arith)
      refl (λ e. omega (arith, e, resolve_long))

motd-IsRegular : IsRegular motd (inode_with 5 64 0x8000 hello)
motd-IsRegular = record {
  inode = refl;
  is_file = refl;
  no_console = refl;
  no_null = refl;
  no_zero = refl;
  no_chardev = refl;
  no_blockdev = refl;
  no_ext2 = λ e. omega (arith, e);
  no_data = λ e. omega (arith, e);
}

new_file-IsRegular : IsRegular new_file (inode_with 0 0 0 (λ _. 0))
new_file-IsRegular = record {
  inode = refl;
  is_file = refl;
  no_console = refl;
  no_null = refl;
  no_zero = refl;
  no_chardev = refl;
  no_blockdev = refl;
  no_ext2 = λ e. omega (arith, e);
  no_data = λ e. (refl, refl);
}

-- The message, open at its third byte, and the new file, open 10 bytes past its end.
abbrev motd_file : File
motd_file = record { node = 3; pos = 2; writable = true }

abbrev sparse : File
sparse = record { node = 4; pos = 10; writable = true }

abbrev payload : List ℕ
payload = b'!' ∷ b'?' ∷ []

-- No allocation where the capacity is enough, and blocks of 64 and of 128 bytes.
motd-Serves : Serves host 0x9000 (inode_with 5 64 0x8000 hello) 4
motd-Serves h = absurd (omega (arith, h))

new_file-Serves : Serves host 0x9000 (inode_with 0 0 0 (λ _. 0)) 12
unfolding double
new_file-Serves h cap e = ground (arith, e)

resized-Serves : Serves host 0x9000 (inode_with 5 64 0x8000 hello) 100
unfolding double
resized-Serves h cap e = ground (arith, e)

write-read_example :
    (f' : File) × (w' : World host) × (write host 64 start sparse payload
      ≡ some (done (pos 2), f', w'))
    × ((read host w' (record f' { pos = 10 }) 2).0 ≡ done (pos 2, payload))
write-read_example =
    write-read host start sparse payload new_file (inode_with 0 0 0 (λ _. 0)) refl
      new_file-IsRegular (omega arith) refl (omega arith) new_file-Serves

write-contents_example :
    (f' : File) × (w' : World host) × (i' : Inode) × (write host 64 start motd_file payload
      ≡ some (done (pos 2), f', w'))
    × (node_at host w' 3 ≡ some (record motd { inode = some i' }))
    × (contents i' ≡ b'h' ∷ b'e' ∷ b'!' ∷ b'?' ∷ b'o' ∷ [])
write-contents_example =
    write-contents host start motd_file payload motd (inode_with 5 64 0x8000 hello) refl
      motd-IsRegular (omega arith) refl (omega arith) motd-Serves (omega arith)

write-leaks_example :
    (f' : File) × (w' : World host) × (cap : ℕ) × (write host 64 start sparse payload
      ≡ some (done (pos 2), f', w'))
    × ((read host w' (record f' { pos = 0 }) 10).0
        ≡ done (pos 10, slice (raw host 0x9000 cap) 0 10))
write-leaks_example =
    write-leaks host start sparse payload new_file (inode_with 0 0 0 (λ _. 0)) refl
      new_file-IsRegular (omega arith) refl (omega arith) new_file-Serves (omega arith)
      (omega arith)

resize_file-contents_example :
    (w' : World host) × (i' : Inode) × (resize_file host 64 start motd_file 100
      ≡ some (ok, record motd_file { pos = 2 }, w'))
    × (node_at host w' 3 ≡ some (record motd { inode = some i' }))
    × (contents i' ≡ (b'h' ∷ b'e' ∷ b'l' ∷ b'l' ∷ b'o' ∷ []) ++ replicate 95 0)
resize_file-contents_example =
    resize_file-contents host start motd_file motd (inode_with 5 64 0x8000 hello) 100 refl
      motd-IsRegular (omega arith) (omega arith) resized-Serves

resize_file-hangs_example : resize_file host 1000 start sparse (2 ^ 63 + 1) ≡ none
resize_file-hangs_example =
    resize_file-hangs host 1000 start sparse new_file (inode_with 0 0 0 (λ _. 0)) (2 ^ 63 + 1) refl
      new_file-IsRegular (omega arith) refl (omega arith)
