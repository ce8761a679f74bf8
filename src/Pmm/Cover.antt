-- ===== src/Pmm/Cover.antt =====
-- kernel/arch/x86_64/pmm.c: the free lists as sets of pages.
use rodnix.Prelude.{
  ℕ, zero, suc, ◌+◌, ◌≤◌, ◌<◌, ◌^◌, max, ◌≡◌, refl, true, ◌&&◌, ◌||◌, List, [], ◌∷◌, ◌++◌, ◌==◌,
  ltb, leb, if◌then◌else◌, length, Bool-cases, inl, inr, arith,
}
use rodnix.Pmm.State.{Range, max_free_ranges}
use rodnix.Pmm.Ranges.{freelist_append, insert_at, is_adjacent, join_at}

-- Whether the pages from a first one on include a page, as 1 or 0, and how many ranges of a list
-- hold it.
unfoldable pub covers : ℕ → ℕ → ℕ → ℕ
covers start count p = if leb start p && ltb p (start + count) then 1 else 0

unfoldable pub covered : List Range → ℕ → ℕ
covered [] p = 0
covered (r ∷ rs) p = covers r.start r.count p + covered rs p

-- Where the last range of a list ends.
unfoldable pub top : List Range → ℕ
top [] = 0
top (r ∷ rs) = max (r.start + r.count) (top rs)

pub covered-append :
    (xs : List Range) (r : Range) (p : ℕ)
    → covered (xs ++ r ∷ []) p ≡ covered xs p + covers r.start r.count p
unfolding covered
covered-append [] r p = omega arith
covered-append (x ∷ xs) r p = omega (arith, covered-append xs r p)

pub top-append :
    (xs : List Range) (r : Range) → top (xs ++ r ∷ []) ≡ max (r.start + r.count) (top xs)
unfolding top
top-append [] r = refl
top-append (x ∷ xs) r = omega (arith, top-append xs r)

pub covered-freelist_append :
    (rs : List Range) (start count p : ℕ)
    → (covered (freelist_append rs start count) p ≤ covered rs p + covers start count p)
      × (top (freelist_append rs start count) ≤ max (start + count) (top rs))
unfolding freelist_append
covered-freelist_append rs start count p =
    elim (Bool-cases ((count == 0) || leb max_free_ranges (length rs))) [
      | inl b ↦ rw (b, freelist_append) (omega arith, omega arith)
      | inr b ↦
          let r : Range = record { start = start; count = count } in
          rw (b, freelist_append)
            (omega (arith, covered-append rs r p), omega (arith, top-append rs r))
    ]

-- A list that still has room has lost nothing.
pub freelist_append-exact :
    (rs : List Range) (start count p : ℕ)
    → length (freelist_append rs start count) < max_free_ranges
    → (covered (freelist_append rs start count) p ≡ covered rs p + covers start count p)
      × (length rs < max_free_ranges)
unfolding freelist_append covers
freelist_append-exact rs start count p room =
    elim (Bool-cases ((count == 0) || leb max_free_ranges (length rs))) [
      | inl b ↦ ground (arith, b, room)
      | inr b ↦
          let r : Range = record { start = start; count = count } in
          rw (b, freelist_append) (covered-append rs r p, ground (arith, b))
    ]

pub covered-insert_at :
    (rs : List Range) (i : ℕ) (r : Range) (p : ℕ)
    → covered (insert_at rs i r) p ≡ covered rs p + covers r.start r.count p
unfolding covered insert_at
covered-insert_at [] zero r p = omega arith
covered-insert_at (x ∷ rs) zero r p = omega arith
covered-insert_at [] (suc i) r p = omega arith
covered-insert_at (x ∷ rs) (suc i) r p = omega (arith, covered-insert_at rs i r p)

pub top-insert_at :
    (rs : List Range) (i : ℕ) (r : Range)
    → top (insert_at rs i r) ≡ max (r.start + r.count) (top rs)
unfolding top insert_at
top-insert_at [] zero r = refl
top-insert_at (x ∷ rs) zero r = refl
top-insert_at [] (suc i) r = omega arith
top-insert_at (x ∷ rs) (suc i) r = omega (arith, top-insert_at rs i r)

-- A merge of two ranges that meet holds the same pages.
pub covered-join_at :
    (rs : List Range) (i p : ℕ)
    → is_adjacent rs i ≡ true
    → top rs < 2 ^ 64
    → (covered (join_at rs i) p ≡ covered rs p) × (top (join_at rs i) ≤ top rs)
unfolding covered top join_at is_adjacent covers
covered-join_at [] i p e l = (refl, omega arith)
covered-join_at (x ∷ []) i p e l = (refl, omega arith)
covered-join_at (x ∷ y ∷ rs) zero p e l = ground (arith, e, l)
covered-join_at (x ∷ y ∷ rs) (suc i) p e l =
    let (a, b) = covered-join_at (y ∷ rs) i p e (omega (arith, l)) in
    (ground (arith, a), omega (arith, b))
