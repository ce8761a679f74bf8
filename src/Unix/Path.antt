-- ===== src/Unix/Path.antt =====
-- unix_path_normalize and unix_resolve_path of kernel/unix/fd/unix_fd.c. UNIX_PATH_MAX is 256.
use rodnix.Prelude.{
  ℕ, ◌+◌, ◌-◌, zero, suc, Bool, false, Option, none, some, List, [], ◌∷◌, ◌++◌, ◌==◌, ◌||◌, ltb,
  if◌then◌else◌, take, drop, length, invalid, Result, done, fail,
}
use rodnix.Fs.Path.{slash, same_bytes, skip_slashes, copy_name}

abbrev pub dot : List ℕ
dot = b'.' ∷ []

abbrev pub dot_dot : List ℕ
dot_dot = b'.' ∷ b'.' ∷ []

-- What a segment does to the ones before it, the last of which comes first.
unfoldable pub step_segment : List (List ℕ) → List ℕ → List (List ℕ)
step_segment segs seg =
    let parent : List (List ℕ) = elim segs [ [] ↦ [] | _ ∷ rest ↦ rest ] in
    if same_bytes seg [] || same_bytes seg dot
    then segs
    else if same_bytes seg dot_dot
    then parent
    else if ltb (length segs) 32
    then seg ∷ segs
    else segs

-- The loop over the input, with the rounds that are left.
unfoldable pub collect : ℕ → List (List ℕ) → List ℕ → List (List ℕ)
collect zero segs cs = segs
collect (suc n) segs [] = segs
collect (suc n) segs (c ∷ cs) =
    let seg = copy_name 255 (c ∷ cs) in
    collect n (step_segment segs seg) (skip_slashes (drop (length seg) (c ∷ cs)))

-- A byte written to the output when there is room for it and a NUL.
abbrev pub put_byte : ℕ → List ℕ → ℕ → List ℕ
put_byte size out b = if ltb (length out + 1) size then out ++ b ∷ [] else out

abbrev pub put_bytes : ℕ → List ℕ → List ℕ → List ℕ
put_bytes size out [] = out
put_bytes size out (b ∷ bs) = put_bytes size (put_byte size out b) bs

-- The loop over the segments.
unfoldable pub print_segments : ℕ → List ℕ → List (List ℕ) → List ℕ
print_segments size out [] = out
print_segments size out (s ∷ []) = put_bytes size out s
print_segments size out (s ∷ t ∷ ss) =
    print_segments size (put_byte size (put_bytes size out s) slash) (t ∷ ss)

abbrev pub rev_onto : List (List ℕ) → List (List ℕ) → List (List ℕ)
rev_onto [] acc = acc
rev_onto (s ∷ ss) acc = rev_onto ss (s ∷ acc)

-- unix_path_normalize: the bytes in `out` before its NUL.
unfoldable pub normalize : List ℕ → ℕ → Result (List ℕ)
normalize path out_size =
    let segs = collect (suc (length path)) [] (skip_slashes path) in
    if ltb out_size 2
    then fail invalid
    else done (print_segments out_size (slash ∷ []) (rev_onto segs []))

abbrev pub is_abs_path : List ℕ → Bool
is_abs_path [] = false
is_abs_path (c ∷ _) = c == slash

abbrev pub ends_in_slash : List ℕ → Bool
ends_in_slash [] = false
ends_in_slash (c ∷ []) = c == slash
ends_in_slash (_ ∷ d ∷ ds) = ends_in_slash (d ∷ ds)

-- What unix_resolve_path writes into tmp before the NUL.
unfoldable pub joined : List ℕ → List ℕ → List ℕ
joined cwd path =
    let start = take 255 cwd in
    let base = if ends_in_slash start then start else start ++ slash ∷ [] in
    base ++ take (255 - length base) path

-- unix_resolve_path; none is a write past the end of tmp.
unfoldable pub resolve_path : List ℕ → List ℕ → ℕ → Option (Result (List ℕ))
resolve_path cwd path out_size =
    if ltb out_size 2
    then some (fail invalid)
    else if is_abs_path path
    then some (normalize path out_size)
    else if ltb (length (joined cwd path)) 256
    then some (normalize (joined cwd path) out_size)
    else none
