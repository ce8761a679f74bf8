-- ===== src/Vm/Exit.antt =====
-- vm_task_destroy: the loop that empties the map ends, and leaves no entry.
use rodnix.Prelude.{
  ℕ, zero, suc, ◌-◌, ◌≤◌, ◌≡◌, ◌≢◌, refl, ap, ◌∙◌, Bool, false, List, [], ◌∷◌, ◌++◌, subst, leb,
  arith, inl, inr, Bool-cases, length, ◌||◌, ◌==◌,
}
use rodnix.Vm.Machine.{Machine}
use rodnix.Vm.Object.{Objects}
use rodnix.Vm.Map.{Entry, VmMap, cut, whole, miss, middle, remove, remove_from}
use rodnix.Vm.Trim.{trim}
use rodnix.Vm.Removal.{remove_from-Stopped, remove_from-trim}
use rodnix.Vm.Table.{IsEntry, IsTable, Apart, Disjoint}
use rodnix.Vm.Remove.{first, last, remove-eq}
use rodnix.Vm.Life.{drain}

abbrev NoMiddle : ℕ → ℕ → List Entry → Type 0
NoMiddle s e [] = Unit {0}
NoMiddle s e (x ∷ xs) = (cut s e x ≢ middle) × NoMiddle s e xs

NoMiddle-at :
    (s e : ℕ) (before : List Entry) (x : Entry) (after : List Entry)
    → NoMiddle s e (before ++ x ∷ after)
    → cut s e x ≢ middle
NoMiddle-at s e [] x after n = n.0
NoMiddle-at s e (y ∷ before) x after n = NoMiddle-at s e before x after (n.1)

cut_self : (x : Entry) → IsEntry x → cut x.start x.end x ≡ whole
unfolding cut
cut_self x v = ground arith

cut_other : (x y : Entry) → IsEntry y → Disjoint x y → cut x.start x.end y ≡ miss
unfolding cut
cut_other x y v d = ground arith

Apart-NoMiddle : (x : Entry) (es : List Entry) → Apart x es → IsTable es → NoMiddle x.start x.end es
Apart-NoMiddle x [] a t = tt
Apart-NoMiddle x (y ∷ es) a t =
    ((λ h. cc (h, cut_other x y (t.0) (a.0))), Apart-NoMiddle x es (a.1) (t.2))

trim-Apart : (x : Entry) (es : List Entry) → Apart x es → IsTable es → trim x.start x.end es ≡ es
unfolding trim
trim-Apart x [] a t = refl
trim-Apart x (y ∷ es) a t =
    rw (cut_other x y (t.0) (a.0)) (ap (◌∷◌ y) (trim-Apart x es (a.1) (t.2)))

trim_self :
    (x : Entry) (es : List Entry) → Apart x es → IsTable (x ∷ es) → trim x.start x.end (x ∷ es) ≡ es
unfolding trim
trim_self x es a t = rw (cut_self x (t.0)) (trim-Apart x es a (t.2))

module _ (m : Machine) (pml4 : ℕ) where
  not-full :
      (s e count : ℕ) (k : Objects m) (mapped : Bool) (es : List Entry)
      → NoMiddle s e es
      → (remove_from m mapped pml4 s e count k es).full ≡ false
  not-full s e count k mapped es n =
      elim (Bool-cases (remove_from m mapped pml4 s e count k es).full) [
        | inr f ↦ f
        | inl f ↦
            let st = remove_from-Stopped m mapped pml4 s e count k es f in
            absurd
              (NoMiddle-at s e st.before st.cur st.after (subst (NoMiddle s e) st.was n) st.splits)
      ]

  remove-first :
      (map : VmMap) (k : Objects m) (x : Entry) (es : List Entry)
      → map.entries ≡ x ∷ es
      → IsTable (x ∷ es)
      → (remove m map k x.start (x.end - x.start) pml4).1.entries ≡ es
  remove-first map k x es q t =
      let mapped = pml4 == map.pml4_phys in
      let f : first x.start ≡ x.start = omega (arith, t.0.start_aligned) in
      let l : last x.start (x.end - x.start) ≡ x.end = omega (arith, t.0) in
      let n = Apart-NoMiddle x es (t.1) (t.2) in
      let none_cut : NoMiddle x.start x.end (x ∷ es) = ((λ h. cc (h, cut_self x (t.0))), n) in
      let nf = not-full x.start x.end (length (x ∷ es)) k mapped (x ∷ es) none_cut in
      let valid : (((x.end - x.start) == 0) || leb (last x.start (x.end - x.start)) (first x.start))
          ≡ false =
        ground (arith, f, l, t.0) in
      rw (remove-eq m map k x.start (x.end - x.start) pml4 valid) (
        rw (f, l, q)
          (remove_from-trim m mapped pml4 x.start x.end (length (x ∷ es)) k (x ∷ es) nf
            ∙ trim_self x es (t.1) t))

  drain-nil :
      (n : ℕ) (map : VmMap) (k : Objects m)
      → map.entries ≡ []
      → (drain m n map k pml4).0.entries ≡ []
  unfolding drain
  drain-nil zero map k q = q
  drain-nil (suc n) map k q = ground (arith, q)

  drain-step :
      (n : ℕ) (map : VmMap) (k : Objects m) (x : Entry) (es : List Entry)
      → map.entries ≡ x ∷ es
      → drain m (suc n) map k pml4 ≡ (
          let (_, map', k') = remove m map k x.start (x.end - x.start) pml4 in
          drain m n map' k' pml4)
  unfolding drain
  drain-step n map k x es q = ground (arith, q)

  -- The loop of vm_task_destroy ends with an empty map once it has a round for each entry.
  pub drain-empty :
      (n : ℕ) (map : VmMap) (k : Objects m)
      → length map.entries ≤ n
      → IsTable map.entries
      → (drain m n map k pml4).0.entries ≡ []
  drain-empty zero map k h t = drain-nil zero map k (nil_of map.entries h)
    where
      nil_of : (es : List Entry) → length es ≤ 0 → es ≡ []
      nil_of [] l = refl
      nil_of (x ∷ es) l = absurd (omega arith)
  drain-empty (suc n) map k h t = go map.entries refl (drain-empty n)
    where
      go :
          (es : List Entry)
          → map.entries ≡ es
          → ((map' : VmMap) (k' : Objects m)
              → length map'.entries ≤ n
              → IsTable map'.entries
              → (drain m n map' k' pml4).0.entries ≡ [])
          → (drain m (suc n) map k pml4).0.entries ≡ []
      go [] q rest = drain-nil (suc n) map k q
      go (x ∷ es) q rest =
          let t' = rw q at t in
          let h' : length (x ∷ es) ≤ suc n = rw q at h in
          let c = remove m map k x.start (x.end - x.start) pml4 in
          let left = remove-first map k x es q t' in
          ap (λ (r : VmMap × Objects m). r.0.entries) (drain-step n map k x es q)
          ∙ rest (c.1) (c.2) (rw left (omega (arith, h'))) (rw left (t'.2))
