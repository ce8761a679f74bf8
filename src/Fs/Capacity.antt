-- ===== src/Fs/Capacity.antt =====
-- The loop of vfs_grow_file in kernel/fs/vfs.c that doubles the capacity of a file.
use rodnix.Prelude.{
  ℕ, zero, suc, ◌*◌, ◌%◌, ◌^◌, ◌≤◌, ◌<◌, ◌≡◌, ◌≢◌, refl, sym, ap, ◌∙◌, Bool-cases, none, some, ltb,
  word, arith, ◌⊎◌, inl, inr,
}
use rodnix.Fs.File.{double}

-- The loop on a capacity below what is needed, and on one that is enough.
double_more :
    (n c needed : ℕ) → c < needed → double (suc n) c needed ≡ double n (c * 2 % word) needed
unfolding double
double_more n c needed h = ground (arith, h)

double_enough : (n c needed : ℕ) → needed ≤ c → double (suc n) c needed ≡ some c
unfolding double
double_enough n c needed h = ground (arith, h)

double_step : (c n : ℕ) → c * 2 ^ suc n ≡ c * 2 * 2 ^ n
double_step c n = grind arith

-- What the loop finds.
abbrev pub Doubles : ℕ → ℕ → ℕ → Type 0
Doubles n c needed = (found : ℕ) × (double n c needed ≡ some found) × (needed ≤ found)

double_ends : (n c needed : ℕ) → 2 ^ 63 ≤ c * 2 ^ n → needed ≤ 2 ^ 63 → Doubles (suc n) c needed
double_ends zero c needed reach le =
    let enough : needed ≤ c = omega (arith, reach, le) in
    (c, double_enough 0 c needed enough, enough)
double_ends (suc n) c needed reach le = elim (Bool-cases (ltb c needed)) [
  | inl b ↦
      let less : c < needed = ground (arith, b) in
      let no_wrap : c * 2 % word ≡ c * 2 = omega (arith, less, le) in
      let further : 2 ^ 63 ≤ c * 2 * 2 ^ n = omega (arith, reach, double_step c n) in
      let rest = double_ends n (c * 2) needed further le in
      (
        rest.0,
        double_more (suc n) c needed less ∙ ap (λ d. double (suc n) d needed) no_wrap ∙ rest.1,
        rest.2,
      )
  | inr b ↦
      let enough : needed ≤ c = ground (arith, b) in
      (c, double_enough (suc n) c needed enough, enough)
]

-- With 64 rounds the loop ends, for every need up to 2^63 and every capacity but 0.
pub double-ends : (c needed : ℕ) → c ≢ 0 → needed ≤ 2 ^ 63 → Doubles 64 c needed
double-ends c needed ne le = double_ends 63 c needed (omega (arith, ne)) le

-- A capacity that wraps to 0 on its way, or has.
abbrev Vanishes : ℕ → Type 0
Vanishes c = (c ≡ 0) ⊎ ((k : ℕ) × (c * 2 ^ k ≡ 2 ^ 63))

below : (c k : ℕ) → c * 2 ^ k ≡ 2 ^ 63 → c ≤ 2 ^ 63
below c k e = grind (arith, e)

Vanishes-doubled : (c : ℕ) → Vanishes c → Vanishes (c * 2 % word)
Vanishes-doubled c (inl e) = inl (omega (arith, e))
Vanishes-doubled c (inr (zero, e)) = inl (omega (arith, e))
Vanishes-doubled c (inr (suc k, e)) =
    let e' = sym (double_step c k) ∙ e in
    let no_wrap : c * 2 % word ≡ c * 2 = omega (arith, below (c * 2) k e') in
    inr (k, ap (λ d. d * 2 ^ k) no_wrap ∙ e')

Vanishes-below : (c : ℕ) → Vanishes c → c ≤ 2 ^ 63
Vanishes-below c (inl e) = omega (arith, e)
Vanishes-below c (inr (k, e)) = below c k e

pub double-loops : (n c needed : ℕ) → Vanishes c → 2 ^ 63 < needed → double n c needed ≡ none
unfolding double
double-loops zero c needed v lt = refl
double-loops (suc n) c needed v lt =
    double_more n c needed (omega (arith, Vanishes-below c v, lt))
    ∙ double-loops n (c * 2 % word) needed (Vanishes-doubled c v) lt
