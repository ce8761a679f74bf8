-- ===== src/Fs/Contents.antt =====
-- What vfs_read returns of what vfs_write has written, in kernel/fs/vfs.c.
use rodnix.Prelude.{
  ℕ, to_int, ◌+◌, ◌≤◌, ◌<◌, ◌^◌, ◌≡◌, ◌≢◌, refl, subst, ◌∙◌, Bool-cases, true, false, not, ◌&&◌,
  ◌==◌, ==_refl, ne→==_false, if◌then◌else◌, some, List, length, ltb, leb, max, leb→le, add64,
  arith, done, inl, inr,
}
use rodnix.Fs.Host.{Host}
use rodnix.Fs.Node.{Inode, Node, File}
use rodnix.Fs.Store.{World, node_at}
use rodnix.Fs.File.{
  is_console, is_null, is_zero, is_chardev, is_blockdev, slice, blit, double, grow_inode, set_inode,
  read_plain, write_plain,
}
use rodnix.Fs.Io.{read, write}
use rodnix.Fs.Capacity.{double-ends}
use rodnix.Fs.Buffer.{blit_before, blit_after, slice-blit}

-- A regular file of the heap file system, open for writing, with its node and inode.
pub record IsRegular (n : Node) (i : Inode) : Type 0 where
  pub inode : n.inode ≡ some i
  pub is_file : n.is_dir ≡ false
  pub no_console : is_console i ≡ false
  pub no_null : is_null i ≡ false
  pub no_zero : is_zero i ≡ false
  pub no_chardev : is_chardev i ≡ false
  pub no_blockdev : is_blockdev i ≡ false
  pub no_ext2 : i.fs_tag ≢ 1
  pub no_data : i.data_addr ≡ 0 → (i.size ≡ 0) × (i.capacity ≡ 0)

-- If vfs_grow_file has to allocate, the one call of kmalloc that it makes succeeds.
abbrev pub Serves : (m : Host) → m.State → Inode → ℕ → Type 0
Serves m hw i needed =
    i.capacity < needed
    → (cap : ℕ) → double 64 (if i.capacity == 0 then 64 else i.capacity) needed ≡ some cap
    → (m.kmalloc hw cap).0 ≢ 0

module _ (m : Host) where
  pub read-plain :
      (w : World m) (f : File) (size : ℕ) (n : Node) (i : Inode)
      → node_at m w f.node ≡ some n
      → IsRegular n i
      → f.node ≢ 0
      → read m w f size ≡ read_plain m w f i size
  unfolding read
  read-plain w f size n i e r ne =
      rw
        (
          e,
          r.inode,
          read,
          ne→==_false f.node 0 ne,
          r.no_console,
          r.no_null,
          r.no_zero,
          r.no_blockdev,
        )
        refl

  write-plain :
      (rounds : ℕ) (w : World m) (f : File) (bytes : List ℕ) (n : Node) (i : Inode)
      → node_at m w f.node ≡ some n
      → IsRegular n i
      → f.node ≢ 0
      → f.writable ≡ true
      → write m rounds w f bytes ≡ write_plain m rounds w f i bytes
  unfolding write
  write-plain rounds w f bytes n i e r ne wr =
      rw
        (
          e,
          r.inode,
          write,
          ne→==_false f.node 0 ne,
          wr,
          r.no_console,
          r.no_null,
          r.no_zero,
          ne→==_false i.fs_tag 1 r.no_ext2,
          r.no_blockdev,
          r.is_file,
        )
        refl

  -- What a call of kmalloc has at an offset of the memory that it returns.
  abbrev pub raw : m.State → ℕ → ℕ → ℕ
  raw hw cap = m.stale (m.kmalloc hw cap).1 (m.kmalloc hw cap).0

  -- What vfs_grow_file leaves of an inode.
  pub record Grown (hw : m.State) (i : Inode) (needed : ℕ) : Type 0 where
    pub hw' : m.State
    pub data_addr : ℕ
    pub capacity : ℕ
    pub buffer : ℕ → ℕ
    pub grew :
        grow_inode m 64 hw i needed
        ≡ some (true, hw', record i { data_addr = data_addr; buffer = buffer; capacity = capacity })
    pub no_data : data_addr ≡ 0 → (i.size ≡ 0) × (needed ≡ 0) × (capacity ≡ 0)
    pub keeps : (k : ℕ) → k < i.size → buffer k ≡ i.buffer k
    pub rest : i.capacity < needed → (cap : ℕ) × ((k : ℕ) → i.size ≤ k → buffer k ≡ raw hw cap k)

  pub grow_inode-Grown :
      (hw : m.State) (i : Inode) (needed : ℕ)
      → needed ≤ 2 ^ 63
      → (i.data_addr ≡ 0 → (i.size ≡ 0) × (i.capacity ≡ 0))
      → Serves m hw i needed
      → Grown hw i needed
  unfolding grow_inode
  grow_inode-Grown hw i needed le empty served = elim (Bool-cases (leb needed i.capacity)) [
    | inl b ↦ record {
      hw' = hw;
      data_addr = i.data_addr;
      capacity = i.capacity;
      buffer = i.buffer;
      grew = rw (b, grow_inode) refl;
      no_data =
          λ z. ((empty z).0, omega (arith, leb→le needed i.capacity b, (empty z).1), (empty z).1);
      keeps = λ k l. refl;
      rest = λ less. absurd (omega (arith, less, leb→le needed i.capacity b));
    }
    | inr b ↦
        let start : ℕ = if i.capacity == 0 then 64 else i.capacity in
        let found = double-ends start needed (ground arith) le in
        let (p, hw1) = m.kmalloc hw found.0 in
        let ne : p ≢ 0 = served (ground (arith, b)) found.0 found.1 in
        record {
          hw' = if i.data_addr == 0 then hw1 else m.kfree hw1 i.data_addr;
          data_addr = p;
          capacity = found.0;
          buffer =
              λ k. if not (i.data_addr == 0) && ltb k i.size then i.buffer k else m.stale hw1 p k;
          grew = rw (b, grow_inode, found.1, ne→==_false p 0 ne) refl;
          no_data = λ z. absurd (ne z);
          keeps = λ k l. ground (arith, empty, l);
          rest = λ _. (found.0, λ k l. ground (arith, l));
        }
  ]

  -- vfs_write once the file has grown.
  write_plain-grown :
      (w : World m) (f : File) (i : Inode) (bytes : List ℕ) (end : ℕ) (hw' : m.State) (i' : Inode)
      → add64 f.pos (length bytes) ≡ end
      → grow_inode m 64 w.hw i end ≡ some (true, hw', i')
      → write_plain m 64 w f i bytes
        ≡ some (
          done (to_int (length bytes)),
          record f { pos = end },
          set_inode m w f.node hw' (record i' {
            buffer = blit i'.buffer f.pos bytes;
            size = if ltb i'.size end then end else i'.size;
          }),
        )
  unfolding write_plain
  write_plain-grown w f i bytes end hw' i' e =
      subst
        (λ x.
          grow_inode m 64 w.hw i x ≡ some (true, hw', i')
          → write_plain m 64 w f i bytes
            ≡ some (
              done (to_int (length bytes)),
              record f { pos = x },
              set_inode m w f.node hw' (record i' {
                buffer = blit i'.buffer f.pos bytes;
                size = if ltb i'.size x then x else i'.size;
              }),
            ))
        e (λ h. rw (h, write_plain) refl)

  -- What vfs_write leaves of a regular file.
  pub record Written (w : World m) (f : File) (bytes : List ℕ) (n : Node) (i : Inode) : Type 0 where
    pub w' : World m
    pub i' : Inode
    pub wrote :
        write m 64 w f bytes
        ≡ some (done (to_int (length bytes)), record f { pos = f.pos + length bytes }, w')
    pub stored : node_at m w' f.node ≡ some (record n { inode = some i' })
    pub grew : i'.size ≡ max i.size (f.pos + length bytes)
    pub regular : IsRegular (record n { inode = some i' }) i'
    pub before : (k : ℕ) → k < i.size → k < f.pos → i'.buffer k ≡ i.buffer k
    pub after : (k : ℕ) → k < i.size → f.pos + length bytes ≤ k → i'.buffer k ≡ i.buffer k
    pub gap :
        i.capacity < f.pos + length bytes
        → (cap : ℕ) × ((k : ℕ) → i.size ≤ k → k < f.pos → i'.buffer k ≡ raw w.hw cap k)
    pub within : slice i'.buffer f.pos (length bytes) ≡ bytes

  pub write-Written :
      (w : World m) (f : File) (bytes : List ℕ) (n : Node) (i : Inode)
      → node_at m w f.node ≡ some n
      → IsRegular n i
      → f.node ≢ 0
      → f.writable ≡ true
      → f.pos + length bytes ≤ 2 ^ 63
      → Serves m w.hw i (f.pos + length bytes)
      → Written w f bytes n i
  write-Written w f bytes n i e r ne wr le serves =
      let end_eq : add64 f.pos (length bytes) ≡ f.pos + length bytes = omega (arith, le) in
      let g = grow_inode-Grown w.hw i (f.pos + length bytes) le r.no_data serves in
      let i' : Inode = record i {
        data_addr = g.data_addr;
        capacity = g.capacity;
        buffer = blit g.buffer f.pos bytes;
        size = if ltb i.size (f.pos + length bytes) then f.pos + length bytes else i.size;
      } in
      record {
        w' = set_inode m w f.node g.hw' i';
        i' = i';
        wrote =
            write-plain 64 w f bytes n i e r ne wr
            ∙ write_plain-grown w f i bytes (f.pos + length bytes) g.hw'
                (record i { data_addr = g.data_addr; buffer = g.buffer; capacity = g.capacity })
                end_eq g.grew;
        stored = rw (e, set_inode, ==_refl f.node) refl;
        grew = ground arith;
        regular = record {
          inode = refl;
          is_file = r.is_file;
          no_console = r.no_console;
          no_null = r.no_null;
          no_zero = r.no_zero;
          no_chardev = r.no_chardev;
          no_blockdev = r.no_blockdev;
          no_ext2 = r.no_ext2;
          no_data = λ z. (ground (arith, g.no_data z), (g.no_data z).2);
        };
        before = λ k l b. blit_before g.buffer f.pos bytes k b ∙ g.keeps k l;
        after = λ k l a. blit_after g.buffer f.pos bytes k a ∙ g.keeps k l;
        gap = λ less.
            let q = g.rest less in (q.0, λ k l u. blit_before g.buffer f.pos bytes k u ∙ q.1 k l);
        within = slice-blit g.buffer f.pos bytes;
      }
