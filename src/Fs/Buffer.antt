-- ===== src/Fs/Buffer.antt =====
-- Buffers of bytes in kernel/fs/vfs.c: what a copy into one leaves at each place.
use rodnix.Prelude.{ℕ, zero, suc, ◌+◌, ◌≤◌, ◌<◌, ◌≡◌, refl, ap₂, ◌∙◌, List, [], ◌∷◌, length, arith}
use rodnix.Fs.File.{slice, blit}

-- A byte of a buffer after a write.
pub blit_before :
    (buf : ℕ → ℕ) (off : ℕ) (bs : List ℕ) (i : ℕ) → i < off → blit buf off bs i ≡ buf i
unfolding blit
blit_before buf off [] i h = refl
blit_before buf off (b ∷ bs) i h =
    ground (arith, h, blit_before buf (off + 1) bs i (omega (arith, h)))

pub blit_after :
    (buf : ℕ → ℕ) (off : ℕ) (bs : List ℕ) (i : ℕ) → off + length bs ≤ i → blit buf off bs i ≡ buf i
unfolding blit
blit_after buf off [] i h = refl
blit_after buf off (b ∷ bs) i h =
    ground (arith, h, blit_after buf (off + 1) bs i (omega (arith, h)))

-- Buffers that agree on a range have the same slice there.
pub slice_agree :
    (f g : ℕ → ℕ) (off n : ℕ)
    → ((i : ℕ) → off ≤ i → i < off + n → f i ≡ g i)
    → slice f off n ≡ slice g off n
slice_agree f g off zero h = refl
slice_agree f g off (suc n) h =
    ap₂ (λ x xs. x ∷ xs) (h off (omega arith) (omega arith))
      (slice_agree f g (off + 1) n (λ i l u. h i (omega (arith, l)) (omega (arith, u))))

pub blit_later :
    (buf : ℕ → ℕ) (off b : ℕ) (bs : List ℕ) (i : ℕ)
    → off < i
    → blit buf off (b ∷ bs) i ≡ blit buf (off + 1) bs i
unfolding blit
blit_later buf off b bs i h = ground (arith, h)

pub blit_first : (buf : ℕ → ℕ) (off b : ℕ) (bs : List ℕ) → blit buf off (b ∷ bs) off ≡ b
unfolding blit
blit_first buf off b bs = ground arith

pub slice-blit :
    (buf : ℕ → ℕ) (from : ℕ) (bs : List ℕ) → slice (blit buf from bs) from (length bs) ≡ bs
slice-blit buf from [] = refl
slice-blit buf from (b ∷ bs) =
    let tail =
      slice_agree (blit buf from (b ∷ bs)) (blit buf (from + 1) bs) (from + 1) (length bs)
        (λ i l u. blit_later buf from b bs i (omega (arith, l))) in
    ap₂ (λ x xs. x ∷ xs) (blit_first buf from b bs) (tail ∙ slice-blit buf (from + 1) bs)
