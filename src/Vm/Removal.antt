-- ===== src/Vm/Removal.antt =====
-- The loop of vm_map_remove against `trim`.
use rodnix.Prelude.{
  not, ℕ, ◌+◌, ◌-◌, ◌≤◌, ◌<◌, ◌≡◌, refl, ap, sym, ◌∙◌, Bool, true, false, List, [], ◌∷◌, ◌++◌, leb,
  arith, ◌⊎◌, inl, inr, length, length-append, Bool-cases, leb→le, ◌||◌, append_assoc,
}
use rodnix.Vm.Machine.{Machine}
use rodnix.Vm.Object.{Objects}
use rodnix.Vm.Map.{
  Entry, Cut, cut, miss, whole, front, back, middle, Removal, remove_from, overlaps, max_entries,
}
use rodnix.Vm.Trim.{trim, pieces}

-- Where a removal that met a full table stopped: before `cur`, which it would have cut in two.
pub record Stopped (s e : ℕ) (es out : List Entry) : Type 0 where
  pub before : List Entry
  pub cur : Entry
  pub after : List Entry
  pub was : es ≡ before ++ cur ∷ after
  pub splits : cut s e cur ≡ middle
  pub now : out ≡ trim s e before ++ cur ∷ after

abbrev pub AllNonempty : List Entry → Type 0
AllNonempty [] = Unit {0}
AllNonempty (x ∷ xs) = (x.start < x.end) × AllNonempty xs

abbrev pub hits : Cut → Bool
hits miss = false
hits _ = true

module _ (m : Machine) (mapped : Bool) (pml4 s e : ℕ) where
  abbrev loop : ℕ → Objects m → List Entry → Removal m
  loop count k es = remove_from m mapped pml4 s e count k es

  hits-cut :
      (cur : Entry)
      → cur.start < cur.end
      → s < e
      → hits (cut s e cur) ≡ not (leb e cur.start || leb cur.end s)
  unfolding cut
  hits-cut cur t h = ground arith

  -- One round that goes on: it leaves the pieces of the entry and the rest of the loop's work.
  record Continues (c : Cut) (count : ℕ) (cur : Entry) (rest : List Entry) (r : Removal m)
      : Type 0 where
    count' : ℕ
    k' : Objects m
    entries : r.entries ≡ pieces c s e cur ++ (loop count' k' rest).entries
    full : r.full ≡ (loop count' k' rest).full
    removed : r.removed ≡ (hits c || (loop count' k' rest).removed)
    counted : 0 < count → count' + 1 ≡ count + length (pieces c s e cur)
    bounded : count ≤ max_entries → count' ≤ max_entries

  -- One round that gives up on a full table.
  record GivesUp (count : ℕ) (cur : Entry) (rest : List Entry) (r : Removal m) : Type 0 where
    splits : cut s e cur ≡ middle
    entries : r.entries ≡ cur ∷ rest
    full : r.full ≡ true
    removed : r.removed ≡ true
    at_limit : max_entries ≤ count

  abbrev Round : Cut → ℕ → Entry → List Entry → Removal m → Type 0
  Round c count cur rest r = Continues c count cur rest r ⊎ GivesUp count cur rest r

  round :
      (c : Cut) (count : ℕ) (k : Objects m) (cur : Entry) (rest : List Entry)
      → cut s e cur ≡ c
      → Round c count cur rest (loop count k (cur ∷ rest))
  unfolding remove_from
  round miss count k cur rest h =
      rw (h, remove_from)
        (inl (record {
          count' = count;
          k' = _;
          entries = refl;
          full = refl;
          removed = refl;
          counted = omega arith;
          bounded = omega arith;
        }))
  round whole count k cur rest h =
      rw (h, remove_from)
        (inl (record {
          count' = count - 1;
          k' = _;
          entries = refl;
          full = refl;
          removed = refl;
          counted = omega arith;
          bounded = omega arith;
        }))
  round front count k cur rest h =
      rw (h, remove_from)
        (inl (record {
          count' = count;
          k' = _;
          entries = refl;
          full = refl;
          removed = refl;
          counted = omega arith;
          bounded = omega arith;
        }))
  round back count k cur rest h =
      rw (h, remove_from)
        (inl (record {
          count' = count;
          k' = _;
          entries = refl;
          full = refl;
          removed = refl;
          counted = omega arith;
          bounded = omega arith;
        }))
  round middle count k cur rest h = elim (Bool-cases (leb max_entries count)) [
    | inl b ↦
        rw (h, remove_from, b)
          (inr (record {
            splits = h;
            entries = refl;
            full = refl;
            removed = refl;
            at_limit = omega (arith, leb→le _ _ b);
          }))
    | inr b ↦
        rw (h, remove_from, b)
          (inl (record {
            count' = count + 1;
            k' = _;
            entries = refl;
            full = refl;
            removed = refl;
            counted = omega arith;
            bounded = ground arith;
          }))
  ]

  empty_round :
      (count : ℕ) (k : Objects m)
      → loop count k [] ≡ record { memory = k; entries = []; removed = false; full = false }
  unfolding remove_from
  empty_round count k = refl

  -- A removal that finds room leaves what `trim` leaves.
  pub remove_from-trim :
      (count : ℕ) (k : Objects m) (es : List Entry)
      → (loop count k es).full ≡ false
      → (loop count k es).entries ≡ trim s e es
  unfolding trim
  remove_from-trim count k [] f = rw (empty_round count k)
  remove_from-trim count k (cur ∷ rest) f = elim (round (cut s e cur) count k cur rest refl) [
    | inl c ↦
        c.entries
        ∙ ap (◌++◌ (pieces (cut s e cur) s e cur))
            (remove_from-trim c.count' c.k' rest (sym c.full ∙ f))
    | inr g ↦ cc (g.full)
  ]

  -- A removal that gives up has trimmed the entries before the one that it would have cut in two,
  -- and has left that one and those behind it alone.
  pub remove_from-Stopped :
      (count : ℕ) (k : Objects m) (es : List Entry)
      → (loop count k es).full ≡ true
      → Stopped s e es (loop count k es).entries
  unfolding trim
  remove_from-Stopped count k [] f = cc (f, empty_round count k)
  remove_from-Stopped count k (cur ∷ rest) f = elim (round (cut s e cur) count k cur rest refl) [
    | inl c ↦
        let st = remove_from-Stopped c.count' c.k' rest (sym c.full ∙ f) in
        let left = pieces (cut s e cur) s e cur in
        record {
          before = cur ∷ st.before;
          cur = st.cur;
          after = st.after;
          was = ap (◌∷◌ cur) st.was;
          splits = st.splits;
          now =
              c.entries
              ∙ ap (◌++◌ left) st.now
              ∙ sym (append_assoc left (trim s e st.before) (st.cur ∷ st.after));
        }
    | inr g ↦ record {
      before = [];
      cur = cur;
      after = rest;
      was = refl;
      splits = g.splits;
      now = g.entries;
    }
  ]

  -- The table stays within its 128 entries; `pre` counts those that the loop has left behind.
  pub length-remove_from-le :
      (pre count : ℕ) (k : Objects m) (es : List Entry)
      → count ≡ pre + length es
      → count ≤ max_entries
      → pre + length (loop count k es).entries ≤ max_entries
  length-remove_from-le pre count k [] h b = rw (empty_round count k) (omega arith)
  length-remove_from-le pre count k (cur ∷ rest) h b =
      elim (round (cut s e cur) count k cur rest refl) [
        | inl c ↦
            let left = pieces (cut s e cur) s e cur in
            let ih =
              length-remove_from-le (pre + length left) c.count' c.k' rest (omega arith)
                (c.bounded b) in
            rw (c.entries, length-append) (omega arith)
        | inr g ↦ rw (g.entries) (omega arith)
      ]

  -- The loop reports whether it met an entry.
  pub removed-overlaps :
      (count : ℕ) (k : Objects m) (es : List Entry)
      → s < e
      → AllNonempty es
      → (loop count k es).removed ≡ overlaps es s e
  unfolding overlaps
  removed-overlaps count k [] h t = rw (empty_round count k)
  removed-overlaps count k (cur ∷ rest) h t = elim (round (cut s e cur) count k cur rest refl) [
    | inl c ↦
        ground (arith, c.removed, removed-overlaps c.count' c.k' rest h (t.1), hits-cut cur (t.0) h)
    | inr g ↦ ground (arith, g.removed, g.splits, hits-cut cur (t.0) h)
  ]
