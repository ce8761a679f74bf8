-- ===== src/Vm/Mprotect.antt =====
-- vm_task_mprotect against the view.
use rodnix.Prelude.{
  ℕ, ◌≤◌, ◌<◌, ◌≡◌, ◌≢◌, refl, ap, Bool, true, false, not, Option, List, [], ◌∷◌, some, none, leb,
  arith, ◌⊎◌, inl, inr, Bool-cases, leb→le, ◌||◌, ◌==◌, if◌then◌else◌, unsupported, invalid,
}
use rodnix.Vm.Machine.{Machine}
use rodnix.Vm.Object.{Objects}
use rodnix.Vm.Map.{Entry, VmMap, cut_start, cut_end, page_rounds}
use rodnix.Vm.View.{Mapping, view, inside, view-cons, view-nil}
use rodnix.Vm.Remove.{IsMap, first, last}
use rodnix.Vm.Task.{Task}
use rodnix.Vm.Life.{pte_flags_from_prot}
use rodnix.Vm.Protect.{Protection, remap_pages, protect_from, mprotect}
use rodnix.Vm.Table.{IsTable}
use rodnix.Vm.Mmap.{task_entries}

-- A mapping with another protection.
abbrev pub with_prot : ℕ → Option Mapping → Option Mapping
with_prot prot none = none
with_prot prot (some w) = some (record w { prot = prot })

module _ (m : Machine) (pml4 s e prot : ℕ) where
  abbrev loop : m.State → List Entry → Protection m
  loop hw es = protect_from m pml4 s e prot hw es

  -- The page tables once the pages of an entry are mapped again.
  abbrev remapped : m.State → Entry → m.State
  remapped hw me =
      let rs = cut_start s me in
      let re = cut_end e me in
      remap_pages m pml4 (pte_flags_from_prot prot) rs (page_rounds rs re) hw

  -- One round: past an entry that the range does not meet, stopped at one that it meets in part,
  -- or on with a changed entry.
  data Round (hw : m.State) (me : Entry) (rest : List Entry) (r : Protection m) : Type 0 where
    skips :
        cut_end e me ≤ cut_start s me
        → r ≡ (let later = loop hw rest in record later { entries = me ∷ later.entries })
        → Round hw me rest r
    stops :
        cut_start s me < cut_end e me
        → (cut_start s me ≢ me.start) ⊎ (cut_end e me ≢ me.end)
        → r ≡ record { hw = hw; entries = me ∷ rest; changed = false; partial = true }
        → Round hw me rest r
    changes :
        (hw' : m.State)
        → me.start < me.end
        → s ≤ me.start
        → me.end ≤ e
        → r ≡ (
            let later = loop hw' rest in
            record later { entries = record me { prot = prot } ∷ later.entries; changed = true })
        → Round hw me rest r

  abbrev split_test : Entry → Bool
  split_test me = not (cut_start s me == me.start) || not (cut_end e me == me.end)

  round : (hw : m.State) (me : Entry) (rest : List Entry) → Round hw me rest (loop hw (me ∷ rest))
  unfolding protect_from
  round hw me rest = elim (Bool-cases (leb (cut_end e me) (cut_start s me))) [
    | inl b ↦ skips (leb→le _ _ b) (rw b refl)
    | inr b ↦ elim (Bool-cases (split_test me)) [
      | inl q ↦ stops (ground arith) (ground arith) (rw (b, q) refl)
      | inr q ↦
          changes (remapped hw me) (ground arith) (ground arith) (ground arith) (rw (b, q) refl)
    ]
  ]

  loop-nil : (hw : m.State) → (loop hw []).entries ≡ []
  unfolding protect_from
  loop-nil hw = refl

  view-loop :
      (hw : m.State) (es : List Entry) (a : ℕ)
      → IsTable es
      → (loop hw es).partial ≡ false
      → view (loop hw es).entries a
        ≡ (if inside s e a then with_prot prot (view es a) else view es a)
  view-loop hw [] a t p = rw (loop-nil hw, view-nil a) (ground arith)
  view-loop hw (me ∷ rest) a t p = elim (round hw me rest) [
    | skips h q ↦
        let ih = view-loop hw rest a (t.2) (cc (q, p)) in
        let w = view-cons me (loop hw rest).entries a in
        rw (ap (λ (r : Protection m). view r.entries a) q, w, view-cons me rest a)
          (ground (arith, ih, h, t.0.nonempty))
    | stops h d q ↦ cc (q, p)
    | changes hw' n l u q ↦
        let ih = view-loop hw' rest a (t.2) (cc (q, p)) in
        let w = view-cons (record me { prot = prot }) (loop hw' rest).entries a in
        rw (ap (λ (r : Protection m). view r.entries a) q, w, view-cons me rest a)
          (ground (arith, ih))
  ]

-- After a vm_task_mprotect that replies RDNX_OK or RDNX_E_NOTFOUND, each mapped page of the range
-- has the protection asked for, with its object, offset and flags as before, and every address
-- outside the range is as it was.
pub view-mprotect :
    (m : Machine) (t : Task) (map : VmMap) (k : Objects m) (addr len prot a : ℕ)
    → t.vm_map ≡ some map
    → IsMap map.entries
    → (mprotect m t k addr len prot).0 ≢ invalid
    → (mprotect m t k addr len prot).0 ≢ unsupported
    → view (task_entries (mprotect m t k addr len prot).1.vm_map) a ≡ (
        if inside (first addr) (last addr len) a
        then with_prot prot (view map.entries a)
        else view map.entries a)
unfolding mprotect
view-mprotect m t map k addr len prot a is_map v ni nu =
    let w =
      view-loop m t.address_space (first addr) (last addr len) prot k.refs.hw map.entries a
        v.table in
    ground (arith, is_map, w)
