-- ===== src/Vm/Gap.antt =====
-- vm_find_gap of kernel/vm/vm_map.c: the first free range at or above a hint.
use rodnix.Prelude.{
  ◌*◌, ◌^◌, max, ◌≤◌, ◌<◌, ◌≡◌, ◌≢◌, ◌⊎◌, inl, inr, refl, true, false, Bool-cases, sym, ◌∙◌, subst,
  tests, arith, ℕ, zero, suc, ◌+◌, ◌-◌, ◌/◌, List, ltb, leb, if◌then◌else◌, add64,
}
use rodnix.Vm.Range.{page_size, align_up, default_mmap, user_max}
use rodnix.Vm.Map.{Entry, overlaps}
use rodnix.Vm.Table.{IsAligned}

-- `while (e < VM_USER_MAX)`, with the rounds that are left; 0 is the code's `not found`.
unfoldable pub gap_from : ℕ → List Entry → ℕ → ℕ → ℕ
gap_from zero es s e = 0
gap_from (suc n) es s e =
    let later = gap_from n es (s + page_size) (e + page_size) in
    if ltb e user_max then (if overlaps es s e then later else s) else 0

-- Each round moves `e` up by a page, so this many rounds reach VM_USER_MAX.
abbrev pub gap_rounds : ℕ → ℕ
gap_rounds e = (user_max - e) / page_size + 2

unfoldable pub find_gap : List Entry → ℕ → ℕ → ℕ
find_gap es hint len =
    let s = align_up hint in
    let e = align_up (add64 hint len) in
    let e' = add64 default_mmap (align_up len) in
    if leb e s
    then 0
    else if ltb s default_mmap
    then gap_from (gap_rounds e') es default_mmap e'
    else gap_from (gap_rounds e) es s e

gap-stop :
    (n : ℕ) (es : List Entry) (s e : ℕ) → ltb e user_max ≡ false → gap_from (suc n) es s e ≡ 0
unfolding gap_from
gap-stop n es s e b = rw b

gap-here :
    (n : ℕ) (es : List Entry) (s e : ℕ)
    → ltb e user_max ≡ true
    → overlaps es s e ≡ false
    → gap_from (suc n) es s e ≡ s
unfolding gap_from
gap-here n es s e b o = rw (b, o)

gap-next :
    (n : ℕ) (es : List Entry) (s e : ℕ)
    → ltb e user_max ≡ true
    → overlaps es s e ≡ true
    → gap_from (suc n) es s e ≡ gap_from n es (s + page_size) (e + page_size)
unfolding gap_from
gap-next n es s e b o = rw (b, o)

-- What a free range is: it starts at or above `s` on a page, ends below VM_USER_MAX, and no entry
-- overlaps it.
pub record IsFree (es : List Entry) (s size g : ℕ) : Type 0 where
  pub above : s ≤ g
  pub aligned : IsAligned g
  pub below : g + size < user_max
  pub free : overlaps es g (g + size) ≡ false

-- What the loop has found, if anything.
gap_from-found :
    (n : ℕ) (es : List Entry) (s size e : ℕ)
    → e ≡ s + size
    → IsAligned s
    → gap_from n es s e ≢ 0
    → IsFree es s size (gap_from n es s e)
unfolding gap_from
gap_from-found zero es s size e h a ne = absurd (ne refl)
gap_from-found (suc n) es s size e h a ne = elim (Bool-cases (ltb e user_max)) [
  | inr b ↦ absurd (ne (gap-stop n es s e b))
  | inl b ↦ elim (Bool-cases (overlaps es s e)) [
    | inl o ↦
        let ne' : gap_from n es (s + page_size) (e + page_size) ≢ 0 =
          λ z. ne (gap-next n es s e b o ∙ z) in
        let ih =
          gap_from-found n es (s + page_size) size (e + page_size) (omega arith) (omega arith)
            ne' in
        subst (IsFree es s size) (sym (gap-next n es s e b o))
          (record { above = omega arith; aligned = ih.aligned; below = ih.below; free = ih.free })
    | inr o ↦
        subst (IsFree es s size) (sym (gap-here n es s e b o))
          (record { above = omega arith; aligned = a; below = omega tests; free = rw h at o })
  ]
]

abbrev Used : List Entry → ℕ → ℕ → Type 0
Used es a b = overlaps es a b ≡ true

used : (es : List Entry) {a b a' b' : ℕ} → a ≡ a' → b ≡ b' → Used es a b → Used es a' b'
used es p q u = rw (← p, ← q) u

-- Every candidate that the loop passes by, or all of them if it finds nothing, is in use.
gap_from-passed :
    (n : ℕ) (es : List Entry) (s e i : ℕ)
    → 0 < s
    → user_max ≤ e + n * page_size
    → e + i * page_size < user_max
    → (gap_from n es s e ≡ 0) ⊎ (s + i * page_size < gap_from n es s e)
    → overlaps es (s + i * page_size) (e + i * page_size) ≡ true
gap_from-passed zero es s e i p f l o = absurd (omega arith)
gap_from-passed (suc n) es s e i p f l o = elim (Bool-cases (ltb e user_max)) [
  | inr b ↦ absurd (ground arith)
  | inl b ↦ elim (Bool-cases (overlaps es s e)) [
    | inr q ↦ absurd (omega (arith, gap-here n es s e b q))
    | inl q ↦
        go i l (rw (gap-next n es s e b q) at o) q (λ i'.
          gap_from-passed n es (s + page_size) (e + page_size) i' (omega arith) (omega arith))
  ]
]
  where
    go :
        (i : ℕ)
        → e + i * page_size < user_max
        → (gap_from n es (s + page_size) (e + page_size) ≡ 0)
          ⊎ (s + i * page_size < gap_from n es (s + page_size) (e + page_size))
        → Used es s e
        → ((i' : ℕ)
            → e + page_size + i' * page_size < user_max
            → (gap_from n es (s + page_size) (e + page_size) ≡ 0)
              ⊎ (s + page_size + i' * page_size < gap_from n es (s + page_size) (e + page_size))
            → Used es (s + page_size + i' * page_size) (e + page_size + i' * page_size))
        → Used es (s + i * page_size) (e + i * page_size)
    go zero l o q rec = used es (omega arith) (omega arith) q
    go (suc i) l o q rec = used es (omega arith) (omega arith) (rec i (omega arith) (omega arith))

-- Where the search starts, and where the first candidate ends.
abbrev pub floor : ℕ → ℕ
floor hint = max default_mmap (align_up hint)

module _ (es : List Entry) (hint len : ℕ) (small : hint < 2 ^ 63) (fits : len ≤ user_max)
    (pos : 0 < len) (whole_pages : IsAligned len) where
  find_gap-eq :
      find_gap es hint len
      ≡ gap_from (gap_rounds (floor hint + len)) es (floor hint) (floor hint + len)
  unfolding find_gap
  find_gap-eq = elim (Bool-cases (ltb (align_up hint) default_mmap)) [
    | inl b ↦ rw (nonempty, b) (gap_at (omega (tests, b)) (omega (tests, b)))
    | inr b ↦ rw (nonempty, b) (gap_at (ground arith) (ground arith))
  ]
    where
      nonempty : leb (align_up (add64 hint len)) (align_up hint) ≡ false
      nonempty = ground arith

      gap_at :
          {s e : ℕ}
          → s ≡ floor hint
          → e ≡ floor hint + len
          → gap_from (gap_rounds e) es s e
            ≡ gap_from (gap_rounds (floor hint + len)) es (floor hint) (floor hint + len)
      gap_at p q = rw (p, q) refl

  -- What vm_find_gap returns, unless it is 0: the start of a free range of `len` bytes on a page
  -- at or above the hint, below VM_USER_MAX, for a length in whole pages.
  pub find_gap-IsFree : find_gap es hint len ≢ 0 → IsFree es (floor hint) len (find_gap es hint len)
  find_gap-IsFree = rw find_gap-eq (
      gap_from-found (gap_rounds (floor hint + len)) es (floor hint) len (floor hint + len) refl
        (omega arith))

  -- The search is first fit and complete: a candidate below the address that vm_find_gap returns,
  -- and any candidate at all if it returns 0, overlaps an entry.
  pub find_gap-first :
      (i : ℕ)
      → floor hint + i * page_size + len < user_max
      → (find_gap es hint len ≡ 0) ⊎ (floor hint + i * page_size < find_gap es hint len)
      → overlaps es (floor hint + i * page_size) (floor hint + i * page_size + len) ≡ true
  find_gap-first i l o = used es refl (omega arith) (
      gap_from-passed (gap_rounds (floor hint + len)) es (floor hint) (floor hint + len) i
        (omega arith) (omega arith) (omega arith) (rw find_gap-eq at o))
