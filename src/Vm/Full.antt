-- ===== src/Vm/Full.antt =====
-- vm_map_remove on a full table. The loop drops the pages of the range before it looks whether
-- the table has room for the second half of an entry.
use rodnix.Prelude.{
  ℕ, ◌≤◌, ◌≡◌, refl, ap, Bool, true, false, List, [], ◌∷◌, ◌++◌, leb, arith, inl, inr, Bool-cases,
  leb→le, le→leb,
}
use rodnix.Vm.Machine.{Machine}
use rodnix.Vm.Object.{Objects}
use rodnix.Vm.Map.{
  Entry, Cut, cut, cut_start, cut_end, miss, whole, front, back, middle, Removal, remove_from,
  max_entries, unmap_cut,
}
use rodnix.Vm.Removal.{remove_from-Stopped}
use rodnix.Vm.Table.{IsEntry, IsTable, Apart, Disjoint}

Apart-at : (x z : Entry) (before after : List Entry) → Apart x (before ++ z ∷ after) → Disjoint x z
Apart-at x z [] after a = a.0
Apart-at x z (y ∷ before) after a = Apart-at x z before after (a.1)

-- An entry beside one that the range cuts in two is not met by the range.
cut_beside :
    (s e : ℕ) (x z : Entry) → IsEntry x → Disjoint x z → cut s e z ≡ middle → cut s e x ≡ miss
unfolding cut
cut_beside s e x z v d h = ground arith

module _ (m : Machine) (mapped : Bool) (pml4 s e : ℕ) where
  abbrev loop : ℕ → Objects m → List Entry → Removal m
  loop count k es = remove_from m mapped pml4 s e count k es

  loop-miss :
      (count : ℕ) (k : Objects m) (cur : Entry) (rest : List Entry)
      → cut s e cur ≡ miss
      → loop count k (cur ∷ rest)
        ≡ (let r = loop count k rest in record r { entries = cur ∷ r.entries })
  unfolding remove_from
  loop-miss count k cur rest h = rw (h, remove_from)

  abbrev Left : Objects m → List Entry → Removal m → Type 0
  Left k es r = (r.entries ≡ es) × (r.memory ≡ unmap_cut m mapped pml4 s e k)

  -- The entry at which the loop gives up is beside all others, so the loop passes those by.
  pub limit :
      (count : ℕ) (k : Objects m) (es : List Entry)
      → IsTable es
      → (loop count k es).full ≡ true
      → max_entries ≤ count
  unfolding remove_from
  limit count k [] t f = cc f
  limit count k (cur ∷ rest) t f = elim (Bool-cases (leb max_entries count)) [
    | inl b ↦ leb→le _ _ b
    | inr b ↦ go (cut s e cur) refl b (limit count k rest (t.2))
  ]
    where
      past : (count' : ℕ) (k' : Objects m) → (loop count' k' rest).full ≡ true → cut s e cur ≡ miss
      past count' k' f' =
          let st = remove_from-Stopped m mapped pml4 s e count' k' rest f' in
          cut_beside s e cur st.cur (t.0)
            (Apart-at cur st.cur st.before st.after (rw (st.was) at (t.1))) st.splits

      go :
          (c : Cut)
          → cut s e cur ≡ c
          → leb max_entries count ≡ false
          → ((loop count k rest).full ≡ true → max_entries ≤ count)
          → max_entries ≤ count
      go miss h b ih = ih (rw (h, remove_from) at f)
      go whole h b ih = let f' = rw (h, remove_from) at f in cc (past _ _ f')
      go front h b ih = let f' = rw (h, remove_from) at f in cc (past _ _ f')
      go back h b ih = let f' = rw (h, remove_from) at f in cc (past _ _ f')
      go middle h b ih = let f' = rw (h, remove_from, b) at f in cc (past _ _ f')

  cut_ends : (z : Entry) → cut s e z ≡ middle → (cut_start s z ≡ s) × (cut_end e z ≡ e)
  unfolding cut
  cut_ends z h = ground arith

  stops-Left :
      (count : ℕ) (k : Objects m) (before : List Entry) (z : Entry) (after : List Entry)
      → IsTable (before ++ z ∷ after)
      → cut s e z ≡ middle
      → max_entries ≤ count
      → Left k (before ++ z ∷ after) (loop count k (before ++ z ∷ after))
  unfolding remove_from
  stops-Left count k [] z after t h b =
      rw (h, remove_from, le→leb _ _ b) (refl, rw ((cut_ends z h).0, (cut_ends z h).1) refl)
  stops-Left count k (x ∷ before) z after t h b =
      let ih = stops-Left count k before z after (t.2) h b in
      let e1 = cut_beside s e x z (t.0) (Apart-at x z before after (t.1)) h in
      rw (loop-miss count k x (before ++ z ∷ after) e1) (ap (◌∷◌ x) (ih.0), ih.1)

  -- On a table within the invariant a removal that finds no room has dropped the pages of the
  -- range and has left every entry as it was.
  pub full-Left :
      (count : ℕ) (k : Objects m) (es : List Entry)
      → IsTable es
      → (loop count k es).full ≡ true
      → Left k es (loop count k es)
  full-Left count k es t f =
      let st = remove_from-Stopped m mapped pml4 s e count k es f in
      rw (st.was) (
        stops-Left count k st.before st.cur st.after (rw (st.was) at t) st.splits
          (limit count k es t f))
