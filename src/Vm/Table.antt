-- ===== src/Vm/Table.antt =====
-- The invariant of an entry table: page-aligned entries in the user range that do not overlap.
use rodnix.Prelude.{ℕ, ◌%◌, ◌≤◌, ◌<◌, ◌≡◌, false, List, [], ◌∷◌, ◌++◌, arith, ◌⊎◌}
use rodnix.Vm.Range.{page_size, user_min, user_max}
use rodnix.Vm.Map.{Entry, Cut, cut, cut_start, cut_end, miss, whole, front, back, middle, overlaps}
use rodnix.Vm.Trim.{trim, pieces, low_part, high_part, CutFacts, cut_facts}

abbrev pub IsAligned : ℕ → Type 0
IsAligned a = a % page_size ≡ 0

pub record IsEntry (e : Entry) : Type 0 where
  pub nonempty : e.start < e.end
  pub above : user_min ≤ e.start
  pub below : e.end ≤ user_max
  pub start_aligned : IsAligned e.start
  pub end_aligned : IsAligned e.end

abbrev pub Disjoint : Entry → Entry → Type 0
Disjoint x y = (x.end ≤ y.start) ⊎ (y.end ≤ x.start)

abbrev pub Apart : Entry → List Entry → Type 0
Apart x [] = Unit {0}
Apart x (y ∷ ys) = Disjoint x y × Apart x ys

abbrev pub IsTable : List Entry → Type 0
IsTable [] = Unit {0}
IsTable (e ∷ es) = IsEntry e × Apart e es × IsTable es

-- An entry inside another keeps its distances.
abbrev Within : Entry → Entry → Type 0
Within x y = (y.start ≤ x.start) × (x.end ≤ y.end)

Apart-Within : (x y : Entry) (es : List Entry) → Within x y → Apart y es → Apart x es
Apart-Within x y [] w a = tt
Apart-Within x y (z ∷ es) w a = (ground arith, Apart-Within x y es w (a.1))

Apart-append : (x : Entry) (es fs : List Entry) → Apart x es → Apart x fs → Apart x (es ++ fs)
Apart-append x [] fs a b = b
Apart-append x (e ∷ es) fs a b = (a.0, Apart-append x es fs (a.1) b)

Apart-pieces :
    (x : Entry) (c : Cut) (s e : ℕ) (y : Entry)
    → CutFacts c s e y
    → Disjoint x y
    → Apart x (pieces c s e y)
Apart-pieces x miss s e y f d = (d, tt)
Apart-pieces x whole s e y f d = tt
Apart-pieces x front s e y f d = (ground arith, tt)
Apart-pieces x back s e y f d = (ground arith, tt)
Apart-pieces x middle s e y f d = (ground arith, (ground arith, tt))

Apart-trim : (x : Entry) (s e : ℕ) (es : List Entry) → Apart x es → Apart x (trim s e es)
unfolding trim
Apart-trim x s e [] a = tt
Apart-trim x s e (y ∷ es) a =
    Apart-append x (pieces (cut s e y) s e y) (trim s e es)
      (Apart-pieces x (cut s e y) s e y (cut_facts s e y) (a.0)) (Apart-trim x s e es (a.1))

module _ (s e : ℕ) (sa : IsAligned s) (ea : IsAligned e) where
  pieces-IsTable :
      (c : Cut) (cur : Entry) (rest : List Entry)
      → CutFacts c s e cur
      → IsEntry cur
      → Apart cur rest
      → IsTable rest
      → IsTable (pieces c s e cur ++ rest)
  pieces-IsTable miss cur rest f v a t = (v, a, t)
  pieces-IsTable whole cur rest f v a t = t
  pieces-IsTable front cur rest f v a t =
      (ground arith, Apart-Within (high_part (cut_end e cur) cur) cur rest (ground arith) a, t)
  pieces-IsTable back cur rest f v a t =
      (ground arith, Apart-Within (low_part (cut_start s cur) cur) cur rest (ground arith) a, t)
  pieces-IsTable middle cur rest f v a t = (
    ground arith,
    (ground arith, Apart-Within (low_part (cut_start s cur) cur) cur rest (ground arith) a),
    (ground arith, Apart-Within (high_part (cut_end e cur) cur) cur rest (ground arith) a, t),
  )

  -- Trimming keeps the invariant.
  pub trim-IsTable : (es : List Entry) → IsTable es → IsTable (trim s e es)
  unfolding trim
  trim-IsTable [] t = tt
  trim-IsTable (cur ∷ rest) t =
      pieces-IsTable (cut s e cur) cur (trim s e rest) (cut_facts s e cur) (t.0)
        (Apart-trim cur s e rest (t.1)) (trim-IsTable rest (t.2))

-- A new entry at the end.
pub snoc-IsTable :
    (es : List Entry) (n : Entry)
    → IsTable es
    → IsEntry n
    → overlaps es n.start n.end ≡ false
    → IsTable (es ++ n ∷ [])
unfolding overlaps
snoc-IsTable [] n t v o = (v, tt, tt)
snoc-IsTable (e ∷ es) n t v o = (
  t.0,
  Apart-append e es (n ∷ []) (t.1) (ground arith, tt),
  snoc-IsTable es n (t.2) v (ground arith),
)
