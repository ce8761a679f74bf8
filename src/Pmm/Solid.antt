-- ===== src/Pmm/Solid.antt =====
-- kernel/arch/x86_64/pmm.c: no range of a free list is empty.
use rodnix.Prelude.{
  ℕ, zero, suc, ◌+◌, ◌-◌, ◌<◌, ◌^◌, ◌≡◌, refl, Bool, true, ◌&&◌, ◌||◌, List, [], ◌∷◌, ◌++◌, ◌==◌,
  ltb, leb, length, Bool-cases, inl, inr, arith,
}
use rodnix.Pmm.State.{Range, max_free_ranges}
use rodnix.Pmm.Ranges.{
  freelist_append, position, insert_at, is_adjacent, join_at, merge_next, merge_around,
  freelist_insert, holds, cut, remove_from, freelist_remove,
}
use rodnix.Pmm.Cover.{top, top-insert_at, covered-join_at}

unfoldable pub is_solid : List Range → Bool
is_solid [] = true
is_solid (r ∷ rs) = ltb 0 r.count && is_solid rs

solid_append :
    (rs : List Range) (r : Range)
    → is_solid rs ≡ true
    → ltb 0 r.count ≡ true
    → is_solid (rs ++ r ∷ []) ≡ true
unfolding is_solid
solid_append [] r e f = ground (arith, f)
solid_append (x ∷ rs) r e f = ground (arith, e, f, solid_append rs r (ground (arith, e)) f)

pub freelist_append-is_solid :
    (rs : List Range) (start count : ℕ)
    → is_solid rs ≡ true
    → is_solid (freelist_append rs start count) ≡ true
unfolding freelist_append
freelist_append-is_solid rs start count e =
    elim (Bool-cases ((count == 0) || leb max_free_ranges (length rs))) [
      | inl b ↦ rw (b, freelist_append) e
      | inr b ↦ rw (b, freelist_append) (solid_append rs _ e (ground (arith, b)))
    ]

insert_at-is_solid :
    (rs : List Range) (i : ℕ) (r : Range)
    → is_solid rs ≡ true
    → ltb 0 r.count ≡ true
    → is_solid (insert_at rs i r) ≡ true
unfolding is_solid insert_at
insert_at-is_solid [] zero r e f = ground (arith, f)
insert_at-is_solid (x ∷ rs) zero r e f = ground (arith, e, f)
insert_at-is_solid [] (suc i) r e f = ground (arith, f)
insert_at-is_solid (x ∷ rs) (suc i) r e f =
    ground (arith, e, insert_at-is_solid rs i r (ground (arith, e)) f)

join_at-is_solid :
    (rs : List Range) (i : ℕ)
    → is_adjacent rs i ≡ true
    → top rs < 2 ^ 64
    → is_solid rs ≡ true
    → is_solid (join_at rs i) ≡ true
unfolding is_solid join_at top is_adjacent
join_at-is_solid [] i b l e = refl
join_at-is_solid (x ∷ []) i b l e = e
join_at-is_solid (x ∷ y ∷ rs) zero b l e = ground (arith, e, b, l)
join_at-is_solid (x ∷ y ∷ rs) (suc i) b l e =
    ground (arith, e, join_at-is_solid (y ∷ rs) i b (omega (arith, l)) (ground (arith, e)))

merge_next-is_solid :
    (rs : List Range) (i : ℕ)
    → top rs < 2 ^ 64
    → is_solid rs ≡ true
    → is_solid (merge_next rs i) ≡ true
unfolding merge_next
merge_next-is_solid rs i l e = elim (Bool-cases (is_adjacent rs i)) [
  | inl b ↦ rw (b, merge_next) (join_at-is_solid rs i b l e)
  | inr b ↦ rw (b, merge_next) e
]

merge_around-is_solid :
    (rs : List Range) (i : ℕ)
    → top rs < 2 ^ 64
    → is_solid rs ≡ true
    → is_solid (merge_around rs i) ≡ true
unfolding merge_around
merge_around-is_solid rs i l e = elim (Bool-cases (ltb 0 i && is_adjacent rs (i - 1))) [
  | inl b ↦
      let adj : is_adjacent rs (i - 1) ≡ true = ground (arith, b) in
      let (a, t) = covered-join_at rs (i - 1) 0 adj l in
      rw (b, merge_around)
        (merge_next-is_solid (join_at rs (i - 1)) (i - 1) (omega (arith, t, l))
          (join_at-is_solid rs (i - 1) adj l e))
  | inr b ↦ rw (b, merge_around) (merge_next-is_solid rs i l e)
]

pub freelist_insert-is_solid :
    (rs : List Range) (start count : ℕ)
    → top rs < 2 ^ 64
    → start + count < 2 ^ 64
    → is_solid rs ≡ true
    → is_solid (freelist_insert rs start count) ≡ true
unfolding freelist_insert
freelist_insert-is_solid rs start count l l' e =
    let r : Range = record { start = start; count = count } in
    let pos = position rs start in
    elim (Bool-cases (count == 0)) [
      | inl z ↦ rw (z, freelist_insert) e
      | inr z ↦ elim (Bool-cases (length rs == 0)) [
        | inl f ↦ rw (z, f, freelist_insert) (freelist_append-is_solid rs start count e)
        | inr f ↦ elim (Bool-cases (leb max_free_ranges (length rs))) [
          | inl g ↦ rw (z, f, g, freelist_insert) e
          | inr g ↦
              rw (z, f, g, freelist_insert)
                (merge_around-is_solid (insert_at rs pos r) pos
                  (omega (arith, top-insert_at rs pos r, l, l'))
                  (insert_at-is_solid rs pos r e (ground (arith, z))))
        ]
      ]
    ]

remove_from-is_solid :
    (room : Bool) (rs : List Range) (start count : ℕ)
    → is_solid rs ≡ true
    → is_solid (remove_from room rs start count).1 ≡ true
unfolding remove_from is_solid cut
remove_from-is_solid room [] start count e = refl
remove_from-is_solid room (r ∷ rs) start count e =
    let rest = remove_from-is_solid room rs start count (ground (arith, e)) in
    elim (Bool-cases (holds r start count)) [
      | inl b ↦ rw (b, remove_from) (ground (arith, e))
      | inr b ↦ rw (b, remove_from) (ground (arith, e, rest))
    ]

pub freelist_remove-is_solid :
    (rs : List Range) (start count : ℕ)
    → is_solid rs ≡ true
    → is_solid (freelist_remove rs start count).1 ≡ true
unfolding freelist_remove
freelist_remove-is_solid rs start count e = elim (Bool-cases (count == 0)) [
  | inl b ↦ rw (b, freelist_remove) e
  | inr b ↦
      rw (b, freelist_remove)
        (remove_from-is_solid (ltb (length rs) max_free_ranges) rs start count e)
]

-- The first page of a list can be removed.
pub freelist_remove-first :
    (r : Range) (rs : List Range)
    → top (r ∷ rs) < 2 ^ 64
    → is_solid (r ∷ rs) ≡ true
    → (freelist_remove (r ∷ rs) r.start 1).0 ≡ true
unfolding freelist_remove remove_from holds is_solid top
freelist_remove-first r rs l e = ground (arith, l, e)
