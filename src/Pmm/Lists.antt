-- ===== src/Pmm/Lists.antt =====
-- kernel/arch/x86_64/pmm.c: insertion into and removal from the free lists.
use rodnix.Prelude.{
  ℕ, ◌+◌, ◌-◌, ◌≤◌, ◌<◌, ◌^◌, max, ◌≡◌, refl, ◌∙◌, Bool, true, false, ◌&&◌, List, [], ◌∷◌, ◌==◌,
  ltb, leb, if◌then◌else◌, length, Bool-cases, inl, inr, arith,
}
use rodnix.Pmm.State.{Range, max_free_ranges}
use rodnix.Pmm.Ranges.{
  freelist_append, position, insert_at, is_adjacent, join_at, merge_next, merge_around,
  freelist_insert, holds, cut, remove_from, freelist_remove,
}
use rodnix.Pmm.Cover.{
  covers, covered, top, covered-append, top-append, covered-insert_at, top-insert_at,
  covered-join_at,
}

merge_next-covered :
    (rs : List Range) (i p : ℕ)
    → top rs < 2 ^ 64
    → (covered (merge_next rs i) p ≡ covered rs p) × (top (merge_next rs i) ≤ top rs)
unfolding merge_next
merge_next-covered rs i p l = elim (Bool-cases (is_adjacent rs i)) [
  | inl b ↦ rw (b, merge_next) (covered-join_at rs i p b l)
  | inr b ↦ rw (b, merge_next) (refl, omega arith)
]

merge_around-covered :
    (rs : List Range) (i p : ℕ)
    → top rs < 2 ^ 64
    → (covered (merge_around rs i) p ≡ covered rs p) × (top (merge_around rs i) ≤ top rs)
unfolding merge_around
merge_around-covered rs i p l = elim (Bool-cases (ltb 0 i && is_adjacent rs (i - 1))) [
  | inl b ↦
      let (a, t) = covered-join_at rs (i - 1) p (ground (arith, b)) l in
      let (a', t') = merge_next-covered (join_at rs (i - 1)) (i - 1) p (omega (arith, t, l)) in
      rw (b, merge_around) (a' ∙ a, omega (arith, t, t'))
  | inr b ↦ rw (b, merge_around) (merge_next-covered rs i p l)
]

-- pmm_freelist_insert, on a list whose ranges, as the pages inserted, end below 2 ^ 64: the list
-- that results holds each page as often as before and, if the table of 128 ranges was not full, the
-- pages inserted once more. A full table loses them.
pub freelist_insert-covered :
    (rs : List Range) (start count p : ℕ)
    → top rs < 2 ^ 64
    → start + count < 2 ^ 64
    → (covered (freelist_insert rs start count) p
        ≡ covered rs p + (if ltb (length rs) max_free_ranges then covers start count p else 0))
      × (top (freelist_insert rs start count) ≤ max (start + count) (top rs))
unfolding freelist_insert
freelist_insert-covered rs start count p l l' =
    let r : Range = record { start = start; count = count } in
    let pos = position rs start in
    let c = covered-insert_at rs pos r p in
    let t = top-insert_at rs pos r in
    let (m, m') = merge_around-covered (insert_at rs pos r) pos p (omega (arith, t, l, l')) in
    elim (Bool-cases (count == 0)) [
      | inl z ↦ rw (z, freelist_insert) (unfold covers in ground (arith, z), omega arith)
      | inr z ↦ elim (Bool-cases (length rs == 0)) [
        | inl e ↦
            rw (z, e, freelist_insert)
              (unfold freelist_append in
                (
                  ground (arith, z, e, covered-append rs r p),
                  ground (arith, z, e, top-append rs r),
                ))
        | inr e ↦ elim (Bool-cases (leb max_free_ranges (length rs))) [
          | inl f ↦ rw (z, e, f, freelist_insert) (ground (arith, f), omega arith)
          | inr f ↦ rw (z, e, f, freelist_insert) (ground (arith, f, m, c), omega (arith, m', t))
        ]
      ]
    ]

-- What is cut out of a range is what the rest lacks, or more if there is no room for a second part.
cut-covered :
    (room : Bool) (r : Range) (rs : List Range) (start count p : ℕ)
    → r.start + r.count < 2 ^ 64
    → start + count < 2 ^ 64
    → holds r start count ≡ true
    → (covered (cut room r rs start count) p + covers start count p
        ≤ covers r.start r.count p + covered rs p)
      × (top (cut room r rs start count) ≤ max (r.start + r.count) (top rs))
      × (room ≡ true
          → covered (cut room r rs start count) p + covers start count p
            ≡ covers r.start r.count p + covered rs p)
unfolding cut holds covered covers top
cut-covered room r rs start count p l l' h = ground (arith, l, l', h)

if_holds : (b : Bool) (x y : ℕ) → (b ≡ true → x ≡ y) → (if b then x else y) ≡ y
if_holds true x y f = f refl
if_holds false x y f = refl

remove_from-covered :
    (room : Bool) (rs : List Range) (start count p : ℕ)
    → top rs < 2 ^ 64
    → start + count < 2 ^ 64
    → (remove_from room rs start count).0 ≡ true
    → (covered (remove_from room rs start count).1 p + covers start count p ≤ covered rs p)
      × (top (remove_from room rs start count).1 ≤ top rs)
      × (room ≡ true
          → covered (remove_from room rs start count).1 p + covers start count p ≡ covered rs p)
unfolding remove_from top covered
remove_from-covered room [] start count p l l' e = ground (arith, e)
remove_from-covered room (r ∷ rs) start count p l l' e = elim (Bool-cases (holds r start count)) [
  | inl b ↦
      let (a, t, c) = cut-covered room r rs start count p (omega (arith, l)) l' b in
      rw (b, remove_from) (omega (arith, a), omega (arith, t), λ f. c f)
  | inr b ↦
      let (a, t, c) =
        remove_from-covered room rs start count p (omega (arith, l)) l' (ground (arith, b, e)) in
      rw (b, remove_from) (omega (arith, a), omega (arith, t), λ f. omega (arith, c f))
]

-- pmm_freelist_remove, on a list whose ranges, as the pages removed, end below 2 ^ 64, where it
-- returns true: the list that results holds each of these pages at least once less and no page more
-- often. If the table of 128 ranges has an entry to spare, it holds each of these pages exactly
-- once less and all others as often as before.
pub freelist_remove-covered :
    (rs : List Range) (start count p : ℕ)
    → top rs < 2 ^ 64
    → start + count < 2 ^ 64
    → (freelist_remove rs start count).0 ≡ true
    → (covered (freelist_remove rs start count).1 p + covers start count p ≤ covered rs p)
      × (top (freelist_remove rs start count).1 ≤ top rs)
      × ((if ltb (length rs) max_free_ranges
            then covered (freelist_remove rs start count).1 p + covers start count p
            else covered rs p)
          ≡ covered rs p)
unfolding freelist_remove
freelist_remove-covered rs start count p l l' e = elim (Bool-cases (count == 0)) [
  | inl b ↦ ground (arith, b, e)
  | inr b ↦
      let room = ltb (length rs) max_free_ranges in
      let (a, t, c) = remove_from-covered room rs start count p l l' (ground (arith, b, e)) in
      rw (b, freelist_remove) (a, t, if_holds room _ _ c)
]
