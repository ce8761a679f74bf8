-- ===== src/Vm/Trim.antt =====
-- What vm_map_remove makes of a table, with no memory and no limit on its size: each entry is
-- replaced by the pieces of it that the range leaves.
use rodnix.Prelude.{
  ℕ, ◌-◌, ◌≤◌, ◌<◌, ◌≡◌, none, List, [], ◌∷◌, ◌++◌, if◌then◌else◌, add64, arith, ◌⊎◌,
}
use rodnix.Vm.Map.{Entry, Cut, cut, cut_start, cut_end, miss, whole, front, back, middle}
use rodnix.Vm.View.{view, inside, view-cons, view-nil}

abbrev pub low_part : ℕ → Entry → Entry
low_part s cur = record cur { end = s }

abbrev pub high_part : ℕ → Entry → Entry
high_part e cur = record cur { start = e; object_offset = add64 cur.object_offset (e - cur.start) }

abbrev pub pieces : Cut → ℕ → ℕ → Entry → List Entry
pieces miss s e cur = cur ∷ []
pieces whole s e cur = []
pieces front s e cur = high_part (cut_end e cur) cur ∷ []
pieces back s e cur = low_part (cut_start s cur) cur ∷ []
pieces middle s e cur = low_part (cut_start s cur) cur ∷ high_part (cut_end e cur) cur ∷ []

unfoldable pub trim : ℕ → ℕ → List Entry → List Entry
trim s e [] = []
trim s e (cur ∷ rest) = pieces (cut s e cur) s e cur ++ trim s e rest

-- What each answer of `cut` says of the entry.
abbrev pub CutFacts : Cut → ℕ → ℕ → Entry → Type 0
CutFacts miss s e cur = (e ≤ s) ⊎ (cur.end ≤ cur.start) ⊎ (e ≤ cur.start) ⊎ (cur.end ≤ s)
CutFacts whole s e cur = (s ≤ cur.start) × (cur.start < cur.end) × (cur.end ≤ e)
CutFacts front s e cur = (s ≤ cur.start) × (cur.start < e) × (e < cur.end)
CutFacts back s e cur = (cur.start < s) × (s < cur.end) × (cur.end ≤ e)
CutFacts middle s e cur = (cur.start < s) × (s < e) × (e < cur.end)

pub cut_facts : (s e : ℕ) (cur : Entry) → CutFacts (cut s e cur) s e cur
unfolding cut
cut_facts s e cur = ground arith

-- The same place in the object is seen through a piece as through the whole entry.
offset-high :
    (o a e start : ℕ)
    → start ≤ e
    → e ≤ a
    → add64 (add64 o (e - start)) (a - e) ≡ add64 o (a - start)
offset-high o a e start h k = omega arith

view-pieces :
    (c : Cut) (s e : ℕ) (cur : Entry) (after rest : List Entry) (a : ℕ)
    → CutFacts c s e cur
    → view after a ≡ (if inside s e a then none else view rest a)
    → view (pieces c s e cur ++ after) a ≡ (if inside s e a then none else view (cur ∷ rest) a)
view-pieces miss s e cur after rest a f ih =
    rw (view-cons cur after a, view-cons cur rest a) (ground (arith, ih))
view-pieces whole s e cur after rest a f ih = rw (view-cons cur rest a) (ground (arith, ih))
view-pieces front s e cur after rest a f ih =
    rw (view-cons (high_part (cut_end e cur) cur) after a, view-cons cur rest a)
      (ground (arith, ih, offset-high cur.object_offset a e cur.start))
view-pieces back s e cur after rest a f ih =
    rw (view-cons (low_part (cut_start s cur) cur) after a, view-cons cur rest a)
      (ground (arith, ih))
view-pieces middle s e cur after rest a f ih =
    rw
      (
        view-cons (low_part (cut_start s cur) cur) (high_part (cut_end e cur) cur ∷ after) a,
        view-cons (high_part (cut_end e cur) cur) after a,
        view-cons cur rest a,
      )
      (ground (arith, ih, offset-high cur.object_offset a e cur.start))

-- Trimming takes exactly the range out of the view.
pub view-trim :
    (s e : ℕ) (es : List Entry) (a : ℕ)
    → view (trim s e es) a ≡ (if inside s e a then none else view es a)
unfolding trim
view-trim s e [] a = rw (view-nil a) (ground arith)
view-trim s e (cur ∷ rest) a =
    view-pieces (cut s e cur) s e cur (trim s e rest) rest a (cut_facts s e cur)
      (view-trim s e rest a)
