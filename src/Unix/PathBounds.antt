-- ===== src/Unix/PathBounds.antt =====
-- The buffers of unix_path_normalize and unix_resolve_path in kernel/unix/fd/unix_fd.c.
use rodnix.Prelude.{
  ℕ, ◌+◌, ◌-◌, ◌≤◌, ◌<◌, ◌≡◌, ◌≢◌, refl, ap, ◌∙◌, min, Bool-cases, false, none, List, [], ◌∷◌, ◌++◌,
  ltb, take, length, length-append, length-take, take_all, arith, ◌⊎◌, inl, inr, ◌↔◌,
}
use rodnix.Fs.Path.{slash}
use rodnix.Unix.Path.{
  put_byte, put_bytes, print_segments, is_abs_path, ends_in_slash, joined, resolve_path,
}

-- The output and its NUL fit the buffer.
put_byte-fits :
    (size : ℕ) (out : List ℕ) (b : ℕ) → length out < size → length (put_byte size out b) < size
put_byte-fits size out b h = ground (arith, h, length-append out (b ∷ []))

put_bytes-fits :
    (size : ℕ) (out bs : List ℕ) → length out < size → length (put_bytes size out bs) < size
put_bytes-fits size out [] h = h
put_bytes-fits size out (b ∷ bs) h =
    put_bytes-fits size (put_byte size out b) bs (put_byte-fits size out b h)

print_segments-fits :
    (size : ℕ) (out : List ℕ) (ss : List (List ℕ))
    → length out < size
    → length (print_segments size out ss) < size
unfolding print_segments
print_segments-fits size out [] h = h
print_segments-fits size out (s ∷ []) h = put_bytes-fits size out s h
print_segments-fits size out (s ∷ t ∷ ss) h =
    print_segments-fits size (put_byte size (put_bytes size out s) slash) (t ∷ ss)
      (put_byte-fits size (put_bytes size out s) slash (put_bytes-fits size out s h))

length-joined_from :
    (base path : List ℕ)
    → length (base ++ take (255 - length base) path)
      ≡ length base + min (255 - length base) (length path)
length-joined_from base path =
    length-append base (take (255 - length base) path)
    ∙ ap (λ k. length base + k) (length-take (255 - length base) path)

length-joined :
    (cwd path : List ℕ)
    → length cwd ≤ 255
    → (length (joined cwd path) < 256)
      ⊎ ((length (joined cwd path) ≡ 256) × (length cwd ≡ 255) × (ends_in_slash cwd ≡ false))
unfolding joined
length-joined cwd path h =
    rw (take_all 255 cwd h, joined)
      (elim (Bool-cases (ends_in_slash cwd)) [
        | inl b ↦ rw b (inl (omega (arith, h, length-joined_from cwd path)))
        | inr b ↦ rw b (cases (cwd ++ slash ∷ []) (length-append cwd (slash ∷ [])) b)
      ])
  where
    cases :
        (base : List ℕ)
        → length base ≡ length cwd + 1
        → ends_in_slash cwd ≡ false
        → (length (base ++ take (255 - length base) path) < 256)
          ⊎ ((length (base ++ take (255 - length base) path) ≡ 256)
              × (length cwd ≡ 255)
              × (false ≡ false))
    cases base e b = elim (Bool-cases (ltb (length base) 256)) [
      | inl l ↦ inl (ground (arith, l, length-joined_from base path))
      | inr g ↦
          inr (ground (arith, e, h, g, length-joined_from base path), ground (arith, e, h, g), refl)
    ]

joined-long :
    (cwd path : List ℕ)
    → length cwd ≡ 255
    → ends_in_slash cwd ≡ false
    → 256 ≤ length (joined cwd path)
unfolding joined
joined-long cwd path h b =
    rw (take_all 255 cwd (omega (arith, h)), joined)
      (rw b (
        omega
          (arith, h, length-append cwd (slash ∷ []), length-joined_from (cwd ++ slash ∷ []) path)))

resolve_path-long :
    (cwd path : List ℕ) (out_size : ℕ)
    → is_abs_path path ≡ false
    → 2 ≤ out_size
    → 256 ≤ length (joined cwd path)
    → resolve_path cwd path out_size ≡ none
unfolding resolve_path
resolve_path-long cwd path out_size r o g = rw (r, resolve_path) (ground (arith, o, g))

resolve_path-short :
    (cwd path : List ℕ) (out_size : ℕ)
    → length (joined cwd path) < 256
    → resolve_path cwd path out_size ≢ none
unfolding resolve_path
resolve_path-short cwd path out_size l e = ground (arith, e, l)

-- For a working directory of at most 255 bytes, a path that is not absolute and an output of at
-- least 2 bytes, unix_resolve_path writes past the end of its buffer of 256 bytes exactly when
-- the working directory has 255 bytes and does not end in a slash.
pub resolve_path-overflows :
    (cwd path : List ℕ) (out_size : ℕ)
    → length cwd ≤ 255
    → is_abs_path path ≡ false
    → 2 ≤ out_size
    → (resolve_path cwd path out_size ≡ none) ↔ ((length cwd ≡ 255) × (ends_in_slash cwd ≡ false))
resolve_path-overflows cwd path out_size h r o = (
  (λ e. elim (length-joined cwd path h) [
    | inl l ↦ absurd (resolve_path-short cwd path out_size l e)
    | inr g ↦ (g.1, g.2)
  ]),
  (λ q. resolve_path-long cwd path out_size r o (joined-long cwd path q.0 q.1)),
)
