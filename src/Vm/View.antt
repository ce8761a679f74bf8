-- ===== src/Vm/View.antt =====
-- The abstract view of a map: what an address stands for. Two tables with one view differ only
-- in how they cut the same mappings into entries.
use rodnix.Prelude.{
  ℕ, ◌-◌, ◌≡◌, refl, Bool, ◌&&◌, Option, none, some, List, [], ◌∷◌, leb, ltb, if◌then◌else◌, add64,
  arith,
}
use rodnix.Vm.Map.{Entry, lookup}

pub record Mapping : Type 0 where
  pub prot : ℕ
  pub flags : ℕ
  pub object : ℕ
  pub offset : ℕ

-- What an entry says of an address in it; `offset` is the place in the object.
abbrev pub seen : Entry → ℕ → Mapping
seen e a = record {
  prot = e.prot;
  flags = e.flags;
  object = e.object;
  offset = add64 e.object_offset (a - e.start);
}

abbrev pub seen_in : Option Entry → ℕ → Option Mapping
seen_in none a = none
seen_in (some e) a = some (seen e a)

-- The mapping that vm_map_lookup finds at an address.
abbrev pub view : List Entry → ℕ → Option Mapping
view es a = seen_in (lookup es a) a

abbrev pub inside : ℕ → ℕ → ℕ → Bool
inside s e a = leb s a && ltb a e

pub view-cons :
    (e : Entry) (es : List Entry) (a : ℕ)
    → view (e ∷ es) a ≡ (if inside e.start e.end a then some (seen e a) else view es a)
unfolding lookup
view-cons e es a = ground arith

pub view-nil : (a : ℕ) → view [] a ≡ none
unfolding lookup
view-nil a = refl
