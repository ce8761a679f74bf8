-- ===== src/Fs/Walk.antt =====
-- The loop of vfs_lookup against the meaning of a path.
use rodnix.Prelude.{
  ℕ, zero, suc, ◌<◌, ◌≤◌, ◌≡◌, refl, sym, ap, ap₂, ◌∙◌, Bool-cases, true, false, List, [], ◌∷◌,
  ◌==◌, if◌then◌else◌, map, length, take, ◌⊎◌, inl, inr, arith,
}
use rodnix.Fs.Path.{
  slash, skip_slashes, copy_name, skip_name, next_component, pieces, drop_empty, components,
}
use rodnix.Fs.Node.{Tree}
use rodnix.Fs.Lookup.{find_child, cross, walk, resolve}

-- The node that a list of names leads to, 0 if a name is missing.
unfoldable pub descend : Tree → ℕ → List (List ℕ) → ℕ
descend t current [] = current
descend t current (name ∷ names) =
    let child = find_child t current name in
    let rest = descend t (cross t child) names in if child == 0 then 0 else rest

-- What is left after the slashes: nothing, or a path that starts with another byte.
skip_slashes_cases :
    (p : List ℕ)
    → (skip_slashes p ≡ [])
      ⊎ ((c : ℕ) × (cs : List ℕ) × (skip_slashes p ≡ c ∷ cs)
          × ((c == slash) ≡ false)
          × length (c ∷ cs) ≤ length p)
unfolding skip_slashes
skip_slashes_cases [] = inl refl
skip_slashes_cases (c ∷ cs) = elim (Bool-cases (c == slash)) [
  | inr b ↦ inr (c, cs, rw b refl, b, omega arith)
  | inl b ↦ elim (skip_slashes_cases cs) [
    | inl e ↦ inl (rw b e)
    | inr (d, ds, e, f, l) ↦ inr (d, ds, rw b e, f, omega (arith, l))
  ]
]

skip_slashes-other : (c : ℕ) (cs : List ℕ) → (c == slash) ≡ false → skip_slashes (c ∷ cs) ≡ c ∷ cs
unfolding skip_slashes
skip_slashes-other c cs b = rw b refl

skip_slashes-slash :
    (c : ℕ) (cs : List ℕ) → (c == slash) ≡ true → skip_slashes (c ∷ cs) ≡ skip_slashes cs
unfolding skip_slashes
skip_slashes-slash c cs b = rw b refl

pieces-slash : (c : ℕ) (cs : List ℕ) → (c == slash) ≡ true → pieces (c ∷ cs) ≡ [] ∷ pieces cs
unfolding pieces
pieces-slash c cs b = rw b refl

components-slash : (c : ℕ) (cs : List ℕ) → (c == slash) ≡ true → components (c ∷ cs) ≡ components cs
unfolding components
components-slash c cs b = rw (pieces-slash c cs b) refl

components-skip_slashes : (p : List ℕ) → components (skip_slashes p) ≡ components p
components-skip_slashes [] = ap components (unfold skip_slashes in refl)
components-skip_slashes (c ∷ cs) = elim (Bool-cases (c == slash)) [
  | inl b ↦
      ap components (skip_slashes-slash c cs b)
      ∙ components-skip_slashes cs
      ∙ sym (components-slash c cs b)
  | inr b ↦ ap components (skip_slashes-other c cs b)
]

-- A name, and then the rest.
first_name : List ℕ → List ℕ
first_name [] = []
first_name (c ∷ cs) = let rest = first_name cs in if c == slash then [] else c ∷ rest

copy_name-first_name : (n : ℕ) (p : List ℕ) → copy_name n p ≡ take n (first_name p)
unfolding copy_name first_name
copy_name-first_name zero p = refl
copy_name-first_name (suc n) [] = refl
copy_name-first_name (suc n) (c ∷ cs) = ground (arith, copy_name-first_name n cs)

drop_pieces :
    (p : List ℕ)
    → (q : List (List ℕ)) × (pieces p ≡ first_name p ∷ q)
      × (drop_empty q ≡ drop_empty (pieces (skip_name p)))
unfolding pieces first_name skip_name
drop_pieces [] = ([], refl, refl)
drop_pieces (c ∷ cs) = elim (Bool-cases (c == slash)) [
  | inl b ↦ (pieces cs, rw b refl, ground (arith, b))
  | inr b ↦ let (q, e, f) = drop_pieces cs in (q, ground (arith, e, b), ground (arith, b, f))
]

-- A path that starts with a name is that name, cut, and the rest.
components-name :
    (c : ℕ) (cs : List ℕ)
    → (c == slash) ≡ false
    → components (c ∷ cs) ≡ copy_name 31 (c ∷ cs) ∷ components (skip_name (c ∷ cs))
unfolding components
components-name c cs b =
    let (q, e, f) = drop_pieces (c ∷ cs) in
    let k : first_name (c ∷ cs) ≡ c ∷ first_name cs = unfold first_name in rw b refl in
    ap (λ ps. map (take 31) (drop_empty ps)) (e ∙ ap (λ x. x ∷ q) k)
    ∙ ap₂ (λ x xs. x ∷ map (take 31) xs) (sym (copy_name-first_name 31 (c ∷ cs) ∙ ap (take 31) k)) f

length-skip_name : (p : List ℕ) → length (skip_name p) ≤ length p
unfolding skip_name
length-skip_name [] = omega arith
length-skip_name (c ∷ cs) = ground (arith, length-skip_name cs)

length-skip_name_other :
    (c : ℕ) (cs : List ℕ) → (c == slash) ≡ false → length (skip_name (c ∷ cs)) < length (c ∷ cs)
unfolding skip_name
length-skip_name_other c cs b = ground (arith, b, length-skip_name cs)

pub walk-descend :
    (n : ℕ) (t : Tree) (current : ℕ) (p : List ℕ)
    → length p < n
    → walk n t current p ≡ descend t current (components p)
unfolding walk next_component descend
walk-descend zero t current p h = elim h [ ]
walk-descend (suc n) t current p h = elim (skip_slashes_cases p) [
  | inl e ↦
      let k : components p ≡ [] =
        sym (components-skip_slashes p) ∙ ap components e ∙ (unfold components pieces in refl) in
      rw (e, k, walk, next_component, descend) refl
  | inr (c, cs, e, b, l) ↦
      let k = sym (components-skip_slashes p) ∙ ap components e ∙ components-name c cs b in
      let child = find_child t current (copy_name 31 (c ∷ cs)) in
      rw (e, k, walk, next_component, descend)
        (ap (λ x. if child == 0 then 0 else x)
          (walk-descend n t (cross t child) (skip_name (c ∷ cs))
            (omega (arith, h, l, length-skip_name_other c cs b))))
]

-- What vfs_lookup finds without its cache: the node that the names of the path lead to, which are
-- the pieces between its slashes that are not empty, each cut to 31 bytes.
pub resolve-descend :
    (t : Tree) (path : List ℕ) → resolve t path ≡ descend t t.root (components path)
unfolding resolve
resolve-descend t path = walk-descend (suc (length path)) t t.root path (omega arith)
