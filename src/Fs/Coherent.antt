-- ===== src/Fs/Coherent.antt =====
-- The path cache of vfs_lookup: when it agrees with the name space, and when it does not.
use rodnix.Prelude.{
  take_all, ℕ, zero, suc, ◌%◌, ◌<◌, ◌≤◌, ◌≡◌, ◌≢◌, refl, sym, ap, subst, ◌∙◌, Bool-cases, true,
  false, List, [], ◌∷◌, ◌++◌, ◌==◌, ne→==_false, length, length-append, set, take, ◌⊎◌, inl, inr,
  arith,
}
use rodnix.Fs.Path.{slash, same_bytes, skip_slashes, next_component}
use rodnix.Fs.Node.{CacheEntry, Tree, Vfs}
use rodnix.Fs.Lookup.{walk, resolve, hits, cache_find, gen_of, cache_insert, lookup}

-- A predicate of every entry.
abbrev pub AllEntries : (CacheEntry → Type 0) → List CacheEntry → Type 0
AllEntries P [] = Unit {0}
AllEntries P (e ∷ es) = P e × AllEntries P es

-- What an entry answers for a path is what the name space has there.
abbrev pub Answers : Tree → ℕ → List ℕ → CacheEntry → Type 0
Answers t gen path e = hits t gen path e ≡ true → resolve t path ≡ e.node

-- The cache agrees with the name space.
pub record IsCoherent (s : Vfs) : Type 0 where
  pub agrees : (path : List ℕ) → AllEntries (Answers s.tree s.cache_gen path) s.cache

AllEntries-set :
    (P : CacheEntry → Type 0) (es : List CacheEntry) (i : ℕ) (e : CacheEntry)
    → P e
    → AllEntries P es
    → AllEntries P (set es i e)
AllEntries-set P [] i e p h = tt
AllEntries-set P (x ∷ xs) zero e p h = (p, h.1)
AllEntries-set P (x ∷ xs) (suc i) e p h = (h.0, AllEntries-set P xs i e p h.1)

same_bytes_sound : (a b : List ℕ) → same_bytes a b ≡ true → a ≡ b
same_bytes_sound [] [] h = refl
same_bytes_sound [] (y ∷ ys) h = cc
same_bytes_sound (x ∷ xs) [] h = cc
same_bytes_sound (x ∷ xs) (y ∷ ys) h = ground (arith, h, same_bytes_sound xs ys)

same_bytes_self : (a : List ℕ) → same_bytes a a ≡ true
same_bytes_self [] = refl
same_bytes_self (x ∷ xs) = ground (arith, same_bytes_self xs)

take_prefix : (n : ℕ) (xs ys : List ℕ) → length xs ≡ n → take n (xs ++ ys) ≡ xs
take_prefix zero [] ys h = refl
take_prefix zero (x ∷ xs) ys h = ground (arith, h)
take_prefix (suc n) [] ys h = ground (arith, h)
take_prefix (suc n) (x ∷ xs) ys h = ap (λ zs. x ∷ zs) (take_prefix n xs ys (omega (arith, h)))

-- What the cache finds is what the name space has.
cache_find-Answers :
    (t : Tree) (gen : ℕ) (path : List ℕ) (es : List CacheEntry)
    → AllEntries (Answers t gen path) es
    → (cache_find t gen path es ≡ 0) ⊎ (resolve t path ≡ cache_find t gen path es)
unfolding cache_find
cache_find-Answers t gen path [] h = inl refl
cache_find-Answers t gen path (e ∷ es) h = elim (Bool-cases (hits t gen path e)) [
  | inl b ↦ inr (rw (b, cache_find) (h.0 b))
  | inr b ↦ rw (b, cache_find) (cache_find-Answers t gen path es h.1)
]

-- The entry that vfs_cache_insert writes.
abbrev written : Tree → ℕ → List ℕ → ℕ → CacheEntry
written t gen path p = record { path = take 63 path; node = p; gen = gen; node_gen = gen_of t p }

-- It answers for the path that it was written for.
written-Answers :
    (t : Tree) (gen : ℕ) (path other : List ℕ) (p : ℕ)
    → length path ≤ 63
    → resolve t path ≡ p
    → Answers t gen other (written t gen path p)
unfolding hits
written-Answers t gen path other p l r h =
    let same : same_bytes (take 63 path) other ≡ true = ground (arith, h) in
    ap (resolve t) (sym (same_bytes_sound _ other same) ∙ take_all 63 path l) ∙ r

cache_insert-IsCoherent :
    (s : Vfs) (path : List ℕ) (p : ℕ)
    → length path ≤ 63
    → resolve s.tree path ≡ p
    → IsCoherent s
    → IsCoherent (cache_insert s path p)
unfolding cache_insert
cache_insert-IsCoherent s path p l r w = elim (Bool-cases (p == 0)) [
  | inl b ↦ rw (b, cache_insert) w
  | inr b ↦
      rw (b, cache_insert)
        record {
          agrees = λ other.
              AllEntries-set _ s.cache (s.cache_rr % 64) _
                (written-Answers s.tree s.cache_gen path other p l r) (w.agrees other);
        }
]

cache_insert-tree : (s : Vfs) (path : List ℕ) (p : ℕ) → (cache_insert s path p).tree ≡ s.tree
unfolding cache_insert
cache_insert-tree s path p = ground arith

resolve-slash : (t : Tree) → resolve t (slash ∷ []) ≡ t.root
unfolding resolve walk next_component skip_slashes
resolve-slash t = refl

-- vfs_lookup of a path of at most 63 bytes, when the cache agrees with the name space and there is
-- a root: it returns the node that the path leads to, found in the cache or not, and the cache
-- still agrees.
pub lookup-IsCoherent :
    (s : Vfs) (path : List ℕ)
    → IsCoherent s
    → length path ≤ 63
    → s.tree.root ≢ 0
    → ((lookup s path).0 ≡ resolve s.tree path) × IsCoherent (lookup s path).1
unfolding lookup
lookup-IsCoherent s path w l h =
    let cached = cache_find s.tree s.cache_gen path s.cache in
    let a = cache_find-Answers s.tree s.cache_gen path s.cache (w.agrees path) in
    let found = resolve s.tree path in
    let kept = λ (e : (lookup s path).1 ≡ s). subst IsCoherent (sym e) w in
    elim (Bool-cases (same_bytes path (slash ∷ []))) [
      | inl n ↦
          let e = ap (resolve s.tree) (same_bytes_sound path _ n) ∙ resolve-slash s.tree in
          (ground (arith, h, n, e), kept (ground (arith, h, n)))
      | inr n ↦ elim (Bool-cases (cached == 0)) [
        | inr b ↦ (ground (arith, a, b, h, n), kept (ground (arith, b, h, n)))
        | inl b ↦ elim (Bool-cases (found == 0)) [
          | inl c ↦ (ground (arith, b, c, h, n), kept (ground (arith, b, c, h, n)))
          | inr c ↦
              let e : (lookup s path).1 ≡ cache_insert s path found = ground (arith, b, c, h, n) in
              (
                ground (arith, b, c, h, n),
                subst IsCoherent (sym e) (cache_insert-IsCoherent s path found l refl w),
              )
        ]
      ]
    ]

fresh_self :
    (t : Tree) (gen : ℕ) (q : List ℕ) (e : CacheEntry)
    → e.gen ≡ gen
    → e.node_gen ≡ gen_of t e.node
    → same_bytes e.path q ≡ true
    → same_bytes e.path [] ≡ false
    → hits t gen q e ≡ true
unfolding hits
fresh_self t gen q e g n b c = ground (arith, g, n, b, c)

same_bytes-length : (a b : List ℕ) → same_bytes a b ≡ true → length a ≡ length b
same_bytes-length a b h = ap length (same_bytes_sound a b h)

same_bytes-other : (a b : List ℕ) → length a ≢ length b → same_bytes a b ≡ false
same_bytes-other a b h = elim (Bool-cases (same_bytes a b)) [
  | inl e ↦ absurd (h (same_bytes-length a b e))
  | inr e ↦ e
]

-- An entry with the 63 bytes of a longer path answers for a path of just these bytes.
written-hits :
    (t : Tree) (gen : ℕ) (q r : List ℕ) (p : ℕ)
    → length q ≡ 63
    → hits t gen q (written t gen (q ++ r) p) ≡ true
written-hits t gen q r p l =
    let e = take_prefix 63 q r l in
    fresh_self t gen q (written t gen (q ++ r) p) refl refl
      (ap (λ x. same_bytes x q) e ∙ same_bytes_self q)
      (ap (λ x. same_bytes x []) e ∙ same_bytes-other q [] (omega (arith, l)))

-- The entries of another generation.
abbrev pub Stale : ℕ → CacheEntry → Type 0
Stale gen e = e.gen ≢ gen

Stale-hits :
    (t : Tree) (gen : ℕ) (q : List ℕ) (e : CacheEntry) → Stale gen e → hits t gen q e ≡ false
unfolding hits
Stale-hits t gen q e h = ground (arith, h)

cache_find-Stale :
    (t : Tree) (gen : ℕ) (q : List ℕ) (es : List CacheEntry)
    → AllEntries (Stale gen) es
    → cache_find t gen q es ≡ 0
unfolding cache_find
cache_find-Stale t gen q [] h = refl
cache_find-Stale t gen q (e ∷ es) h =
    rw (Stale-hits t gen q e h.0, cache_find) (cache_find-Stale t gen q es h.1)

cache_find-set :
    (t : Tree) (gen : ℕ) (q : List ℕ) (es : List CacheEntry) (i : ℕ) (e : CacheEntry)
    → AllEntries (Stale gen) es
    → i < length es
    → hits t gen q e ≡ true
    → cache_find t gen q (set es i e) ≡ e.node
unfolding cache_find
cache_find-set t gen q [] i e h l k = elim l [ ]
cache_find-set t gen q (x ∷ xs) zero e h l k = rw (k, cache_find) refl
cache_find-set t gen q (x ∷ xs) (suc i) e h l k =
    rw (Stale-hits t gen q x h.0, cache_find)
      (cache_find-set t gen q xs i e h.1 (omega (arith, l)) k)

lookup_miss :
    (s : Vfs) (path : List ℕ)
    → s.tree.root ≢ 0
    → same_bytes path (slash ∷ []) ≡ false
    → cache_find s.tree s.cache_gen path s.cache ≡ 0
    → resolve s.tree path ≢ 0
    → (lookup s path).1 ≡ cache_insert s path (resolve s.tree path)
unfolding lookup
lookup_miss s path h n c r = ground (arith, h, n, c, r)

lookup_hit :
    (s : Vfs) (path : List ℕ)
    → s.tree.root ≢ 0
    → same_bytes path (slash ∷ []) ≡ false
    → cache_find s.tree s.cache_gen path s.cache ≢ 0
    → (lookup s path).0 ≡ cache_find s.tree s.cache_gen path s.cache
unfolding lookup
lookup_hit s path h n c = ground (arith, h, n, c)

-- The cache cuts a path to 63 bytes: with a root and no current entry in a cache of 64 entries,
-- the lookup of a path of 63 bytes or more that leads to a node makes a later lookup of its first
-- 63 bytes return that node, whatever the name space has at the shorter path.
pub lookup-poisons :
    (s : Vfs) (q r : List ℕ)
    → AllEntries (Stale s.cache_gen) s.cache
    → length s.cache ≡ 64
    → s.tree.root ≢ 0
    → length q ≡ 63
    → resolve s.tree (q ++ r) ≢ 0
    → (lookup (lookup s (q ++ r)).1 q).0 ≡ resolve s.tree (q ++ r)
unfolding cache_insert
lookup-poisons s q r st k h l n =
    let p = resolve s.tree (q ++ r) in
    let s1 = cache_insert s (q ++ r) p in
    let long : length (q ++ r) ≢ 1 = omega (arith, l, length-append {A = ℕ} q r) in
    let m = lookup_miss s (q ++ r) h (same_bytes-other _ _ long) (cache_find-Stale _ _ _ _ st) n in
    let f : cache_find s1.tree s1.cache_gen q s1.cache ≡ p =
      rw (ne→==_false p 0 n, cache_insert)
        (cache_find-set s.tree s.cache_gen q s.cache (s.cache_rr % 64)
          (written s.tree s.cache_gen (q ++ r) p) st (omega (arith, k))
          (written-hits s.tree s.cache_gen q r p l)) in
    let root : s1.tree.root ≢ 0 =
      subst (λ t. t.root ≢ 0) (sym (cache_insert-tree s (q ++ r) p)) h in
    ap (λ x. (lookup x q).0) m
    ∙ lookup_hit s1 q root (same_bytes-other q _ (omega (arith, l))) (λ e. n (sym f ∙ e))
    ∙ f
