-- ===== src/Fs/ReadBack.antt =====
-- vfs_write followed by vfs_read on a regular file of the heap, in kernel/fs/vfs.c.
use rodnix.Prelude.{
  ℕ, to_int, zero, suc, ◌+◌, ◌-◌, ◌≤◌, ◌<◌, ◌^◌, ◌≡◌, ◌≢◌, refl, sym, ap, ap₂, ◌∙◌, Bool-cases,
  true, some, List, ◌∷◌, ◌++◌, length, take, drop, leb, arith, done, inl, inr,
}
use rodnix.Fs.Host.{Host}
use rodnix.Fs.Node.{Inode, Node, File}
use rodnix.Fs.Store.{World, node_at}
use rodnix.Fs.File.{slice, read_plain}
use rodnix.Fs.Io.{read, write}
use rodnix.Fs.Contents.{IsRegular, Serves, write-Written, read-plain, raw}
use rodnix.Fs.Buffer.{slice_agree}

-- The bytes of a file.
abbrev pub contents : Inode → List ℕ
contents i = slice i.buffer 0 i.size

pub slice_eq : (f : ℕ → ℕ) {x y m n : ℕ} → x ≡ y → m ≡ n → slice f x m ≡ slice f y n
slice_eq f e d = ap₂ (slice f) e d

pub slice-append :
    (f : ℕ → ℕ) (off a b : ℕ) → slice f off (a + b) ≡ slice f off a ++ slice f (off + a) b
slice-append f off zero b = slice_eq f (omega arith) (omega arith)
slice-append f off (suc a) b =
    slice_eq f {n = suc (a + b)} refl (omega arith)
    ∙ ap (λ xs. f off ∷ xs)
        (slice-append f (off + 1) a b
          ∙ ap (λ ys. slice f (off + 1) a ++ ys) (slice_eq f {x = off + 1 + a} (omega arith) refl))

pub take-slice : (f : ℕ → ℕ) (off a b : ℕ) → a ≤ b → take a (slice f off b) ≡ slice f off a
take-slice f off zero b h = refl
take-slice f off (suc a) zero h = elim h [ ]
take-slice f off (suc a) (suc b) h =
    ap (λ xs. f off ∷ xs) (take-slice f (off + 1) a b (omega (arith, h)))

drop-slice : (f : ℕ → ℕ) (off a b : ℕ) → drop a (slice f off b) ≡ slice f (off + a) (b - a)
drop-slice f off zero b = slice_eq f (omega arith) (omega arith)
drop-slice f off (suc a) zero = slice_eq f {m = 0} refl (omega arith)
drop-slice f off (suc a) (suc b) =
    drop-slice f (off + 1) a b ∙ slice_eq f (omega arith) (omega arith)

module _ (m : Host) where
  -- A read of a regular file within its bytes.
  read-within :
      (w : World m) (f : File) (size : ℕ) (n : Node) (i : Inode)
      → node_at m w f.node ≡ some n
      → IsRegular n i
      → f.node ≢ 0
      → f.pos + size ≤ i.size
      → (read m w f size).0 ≡ done (to_int size, slice i.buffer f.pos size)
  unfolding read_plain
  read-within w f size n i e r ne le =
      ap (λ r. r.0) (read-plain m w f size n i e r ne) ∙ elim (Bool-cases (leb i.size f.pos)) [
        | inl b ↦
            rw (b, read_plain)
              (ap (λ k. done (to_int k, slice i.buffer f.pos k)) {x = 0} (ground (arith, b, le)))
        | inr b ↦
            rw (b, read_plain)
              (ap (λ k. done (to_int k, slice i.buffer f.pos k)) (omega (arith, le)))
      ]

  -- vfs_write of bytes to a regular file that is open for writing, when they end at 2^63 at
  -- most and the allocation succeeds if the file has to grow, ends within 64 rounds of its loop,
  -- writes all of them and returns their number as an `int`; vfs_read of as many bytes at the place
  -- where they were written then reads them and returns the same number.
  pub write-read :
      (w : World m) (f : File) (bytes : List ℕ) (n : Node) (i : Inode)
      → node_at m w f.node ≡ some n
      → IsRegular n i
      → f.node ≢ 0
      → f.writable ≡ true
      → f.pos + length bytes ≤ 2 ^ 63
      → Serves m w.hw i (f.pos + length bytes)
      → (f' : File) × (w' : World m) × (write m 64 w f bytes
          ≡ some (done (to_int (length bytes)), f', w'))
        × ((read m w' (record f' { pos = f.pos }) (length bytes)).0
            ≡ done (to_int (length bytes), bytes))
  write-read w f bytes n i e r ne wr le serves =
      let h = write-Written m w f bytes n i e r ne wr le serves in
      (
        record f { pos = f.pos + length bytes },
        h.w',
        h.wrote,
        read-within h.w' f (length bytes) _ h.i' h.stored h.regular ne (omega (arith, h.grew))
            ∙ ap (λ xs. done (to_int (length bytes), xs)) h.within,
      )

  -- vfs_write of bytes to a regular file that is open for writing, when they start within the file
  -- or at its end, end at 2^63 at most and the allocation succeeds if the file has to grow, ends
  -- within 64 rounds of its loop and returns their number as an `int`; the bytes of the file are
  -- then the old ones before the position, the bytes written, and the old ones from their end on.
  pub write-contents :
      (w : World m) (f : File) (bytes : List ℕ) (n : Node) (i : Inode)
      → node_at m w f.node ≡ some n
      → IsRegular n i
      → f.node ≢ 0
      → f.writable ≡ true
      → f.pos + length bytes ≤ 2 ^ 63
      → Serves m w.hw i (f.pos + length bytes)
      → f.pos ≤ i.size
      → (f' : File) × (w' : World m) × (i' : Inode) × (write m 64 w f bytes
          ≡ some (done (to_int (length bytes)), f', w'))
        × (node_at m w' f.node ≡ some (record n { inode = some i' }))
        × (contents i'
            ≡ take f.pos (contents i) ++ (bytes ++ drop (f.pos + length bytes) (contents i)))
  write-contents w f bytes n i e r ne wr le serves inside =
      let h = write-Written m w f bytes n i e r ne wr le serves in
      let end = f.pos + length bytes in
      let rest = i.size - end in
      let low =
        slice_agree h.i'.buffer i.buffer 0 f.pos
          (λ k _ u. h.before k (omega (arith, u, inside)) (omega (arith, u)))
        ∙ sym (take-slice i.buffer 0 f.pos i.size inside) in
      let high =
        slice_agree h.i'.buffer i.buffer end rest (λ k l u. h.after k (omega (arith, u)) l)
        ∙ slice_eq i.buffer (omega arith) refl
        ∙ sym (drop-slice i.buffer 0 end i.size) in
      (
        record f { pos = end },
        h.w',
        h.i',
        h.wrote,
        h.stored,
        slice_eq h.i'.buffer {x = 0} refl (omega (arith, h.grew, inside))
            ∙ slice-append h.i'.buffer 0 f.pos (length bytes + rest)
            ∙ ap₂ (◌++◌) low (
                slice_eq h.i'.buffer (omega arith) refl
                ∙ slice-append h.i'.buffer f.pos (length bytes) rest
                ∙ ap₂ (◌++◌) h.within high),
      )

  -- When vfs_write to a regular file that is open for writing starts at its end or past it, ends
  -- at 2^63 at most, the file has to grow and the allocation for that succeeds, the bytes between the
  -- old end and the position are those that the new block from kmalloc held before: vfs_read reads
  -- them.
  pub write-leaks :
      (w : World m) (f : File) (bytes : List ℕ) (n : Node) (i : Inode)
      → node_at m w f.node ≡ some n
      → IsRegular n i
      → f.node ≢ 0
      → f.writable ≡ true
      → f.pos + length bytes ≤ 2 ^ 63
      → Serves m w.hw i (f.pos + length bytes)
      → i.size ≤ f.pos
      → i.capacity < f.pos + length bytes
      → (f' : File) × (w' : World m) × (cap : ℕ) × (write m 64 w f bytes
          ≡ some (done (to_int (length bytes)), f', w'))
        × ((read m w' (record f' { pos = i.size }) (f.pos - i.size)).0
            ≡ done (to_int (f.pos - i.size), slice (raw m w.hw cap) i.size (f.pos - i.size)))
  write-leaks w f bytes n i e r ne wr le serves past grows =
      let h = write-Written m w f bytes n i e r ne wr le serves in
      let (cap, agrees) = h.gap grows in
      (
        record f { pos = f.pos + length bytes },
        h.w',
        cap,
        h.wrote,
        read-within h.w' (record f { pos = i.size }) (f.pos - i.size) _ h.i' h.stored h.regular ne
              (omega (arith, h.grew, past))
            ∙ ap (λ xs. done (to_int (f.pos - i.size), xs))
                (slice_agree h.i'.buffer (raw m w.hw cap) i.size (f.pos - i.size)
                  (λ k l u. agrees k l (omega (arith, u, past)))),
      )
