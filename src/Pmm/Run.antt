-- ===== src/Pmm/Run.antt =====
-- kernel/arch/x86_64/pmm.c: the search for several pages and their bookkeeping.
use rodnix.Prelude.{
  ℕ, zero, suc, ◌+◌, ◌*◌, ◌/◌, ◌≤◌, ◌≡◌, refl, sym, ap, ◌∙◌, ◌⊎◌, true, ◌&&◌, some, none, List, [],
  ◌∷◌, ◌==◌, ltb, leb, if◌then◌else◌, Bool-cases, inl, inr, arith,
}
use rodnix.Pmm.State.{Range, Pmm}
use rodnix.Pmm.Bits.{bitmap_test, bitmap_set, has_bit, zero_page}
use rodnix.Pmm.Alloc.{find_range, use_pages, zero_pages, take_pages, scan_run}
use rodnix.Pmm.Cover.{covers, top}
use rodnix.Pmm.Invariant.{usable}

-- What the bookkeeping does with the pages from i on.
pub record Used (s : Pmm) (i n : ℕ) (s' : Pmm) : Type 0 where
  pub bits :
      (p : ℕ) → bitmap_test s' p ≡ (if leb i p && ltb p (i + n) then true else bitmap_test s p)
  pub lists : (k : ℕ) → (s'.zone k).free_ranges ≡ (s.zone k).free_ranges
  pub start : s'.memory_start ≡ s.memory_start
  pub total : s'.total_pages ≡ s.total_pages

record SameLists (s s' : Pmm) : Type 0 where
  lists : (k : ℕ) → (s'.zone k).free_ranges ≡ (s.zone k).free_ranges
  start : s'.memory_start ≡ s.memory_start
  total : s'.total_pages ≡ s.total_pages

use_pages-bits :
    (n i : ℕ) (s : Pmm) (p : ℕ)
    → i + n ≤ s.bitmap_size / 4 * 32
    → bitmap_test (use_pages n i s) p ≡ (if leb i p && ltb p (i + n) then true else bitmap_test s p)
unfolding use_pages bitmap_set bitmap_test has_bit
use_pages-bits zero i s p l = ground arith
use_pages-bits (suc n) i s p l =
    use_pages-bits n (suc i) _ p (ground (arith, l)) ∙ ground (arith, l)

use_pages-SameLists : (n i : ℕ) (s : Pmm) → SameLists s (use_pages n i s)
unfolding use_pages bitmap_set
use_pages-SameLists zero i s = record { lists = λ k. refl; start = refl; total = refl }
use_pages-SameLists (suc n) i s =
    let r = use_pages-SameLists n (suc i) _ in
    record {
      lists = λ k. r.lists k ∙ ground arith;
      start = r.start ∙ ground arith;
      total = r.total ∙ ground arith;
    }

zero_pages-same :
    (n a : ℕ) (s : Pmm) → zero_pages n a s ≡ record s { memory = (zero_pages n a s).memory }
unfolding zero_pages zero_page
zero_pages-same zero a s = refl
zero_pages-same (suc n) a s = zero_pages-same n _ _

pub take_pages-Used :
    (s : Pmm) (z i n : ℕ) → i + n ≤ s.bitmap_size / 4 * 32 → Used s i n (take_pages s z i n)
unfolding take_pages bitmap_test has_bit
take_pages-Used s z i n l =
    let b = λ (p : ℕ). use_pages-bits n i s p l in
    let f = use_pages-SameLists n i s in
    let m = zero_pages-same n _ _ in
    record {
      bits = λ p. ap (λ t. bitmap_test t p) m ∙ b p;
      lists = λ k. ap (λ t. (t.zone k).free_ranges) m ∙ ground (arith, f.lists k);
      start = ap Pmm.memory_start m ∙ f.start;
      total = ap Pmm.total_pages m ∙ f.total;
    }

pub find_range-cases :
    (rs : List Range) (count : ℕ)
    → (find_range rs count ≡ none)
      ⊎ ((r : Range) × (find_range rs count ≡ some r) × (r.start + count ≤ top rs))
unfolding find_range top
find_range-cases [] count = inl refl
find_range-cases (r ∷ rs) count = elim (Bool-cases (leb count r.count)) [
  | inl b ↦ inr (r, rw (b, find_range) refl, ground (arith, b))
  | inr b ↦ elim (find_range-cases rs count) [
    | inl e ↦ inl (rw (b, find_range) e)
    | inr (x, e, l) ↦ inr (x, rw (b, find_range) e, omega (arith, l))
  ]
]

-- The search for a run, which has found `run_count` usable pages before page i.
extended :
    (s : Pmm) (z i start len : ℕ)
    → (len ≡ 0) ⊎ (start + len ≡ i)
    → ((p : ℕ) → covers start len p ≤ (if usable s z p then 1 else 0))
    → usable s z i ≡ true
    → ((if len == 0 then i else start) + (len + 1) ≡ suc i)
      × ((p : ℕ)
          → covers (if len == 0 then i else start) (len + 1) p ≤ (if usable s z p then 1 else 0))
unfolding covers
extended s z i start len m u b = (
  ground (arith, m),
  λ p. elim (Bool-cases (i == p)) [
    | inl c ↦
        let same : i ≡ p = ground (arith, c) in
        let here : usable s z p ≡ true = ap (usable s z) (sym same) ∙ b in rw here (ground arith)
    | inr c ↦ ground (arith, c, m, u p)
  ],
)

pub scan_run-cases :
    (s : Pmm) (z count n i start len : ℕ)
    → (len ≡ 0) ⊎ (start + len ≡ i)
    → ((p : ℕ) → covers start len p ≤ (if usable s z p then 1 else 0))
    → (scan_run s z count n i start len ≡ none)
      ⊎ ((a : ℕ) × (scan_run s z count n i start len ≡ some a)
          × (a + count ≤ i + n)
          × ((p : ℕ) → covers a count p ≤ (if usable s z p then 1 else 0)))
unfolding scan_run
scan_run-cases s z count zero i start len m u = inl refl
scan_run-cases s z count (suc n) i start len m u =
    let st = if len == 0 then i else start in
    elim (Bool-cases (usable s z i)) [
      | inl b ↦
          let (en, ex) = extended s z i start len m u b in
          elim (Bool-cases (leb count (len + 1))) [
            | inl c ↦ inr (
              st,
              unfold usable in rw (b, c, scan_run) refl,
              ground (arith, c, en),
              λ p. unfold covers in ground (arith, c, ex p),
            )
            | inr c ↦ elim (scan_run-cases s z count n (suc i) st (len + 1) (inr en) ex) [
              | inl e ↦ inl (unfold usable in rw (b, c, scan_run) e)
              | inr (a, e, l, f) ↦
                  inr (a, unfold usable in rw (b, c, scan_run) e, omega (arith, l), f)
            ]
          ]
      | inr b ↦
          elim (scan_run-cases s z count n (suc i) start 0 (inl refl)
            (λ p. unfold covers in ground arith)) [
              | inl e ↦ inl (unfold usable in rw (b, scan_run) e)
              | inr (a, e, l, f) ↦ inr (a, unfold usable in rw (b, scan_run) e, omega (arith, l), f)
            ]
    ]
