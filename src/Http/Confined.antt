-- ===== src/Http/Confined.antt =====
-- What a request can reach of the file system.
use asio_learn.Base.{
  ℕ, ◌≡◌, sym, ap, ◌∙◌, true, false, ◌&&◌, List, [], ◌∷◌, ◌++◌, ◌==◌, arith, Bool-cases, inl, inr,
  append_assoc, append-nil,
}
use asio_learn.Base.Text.{bytes}
use asio_learn.Http.{
  Request, FileSystem, ends_slash, strip, path_cat, starts_with, has_dots, opened, is_known,
  is_legal, file_path, handle_request,
}

-- A path below the root: it starts with a separator and does not climb.
abbrev pub IsInside : List ℕ → Type 0
IsInside p = (starts_with 47 p ≡ true) × (has_dots p ≡ false)

-- Behind a separator, `index.html` makes no two dots.
has_dots-index :
    (t : List ℕ)
    → ends_slash t ≡ true
    → has_dots t ≡ false
    → has_dots (t ++ bytes "index.html") ≡ false
has_dots-index [] e d = absurd (cc e)
has_dots-index (c ∷ []) e d = let no_dot : (c == 46) ≡ false = ground (arith, e) in rw no_dot
has_dots-index (c ∷ d ∷ s) e h =
    let rest : has_dots (d ∷ s) ≡ false = ground (arith, h) in
    let later = has_dots-index (d ∷ s) e rest in
    let here : (c == 46 && d == 46) ≡ false = ground (arith, h) in rw (here) later

starts_with-append : (c : ℕ) (t u : List ℕ) → starts_with c t ≡ true → starts_with c (t ++ u) ≡ true
starts_with-append c [] u e = absurd (cc e)
starts_with-append c (d ∷ t) u e = e

-- The path that is opened for a legal target.
file_path-IsInside :
    (doc_root target : List ℕ)
    → is_legal target ≡ true
    → (p : List ℕ) × IsInside p × (file_path doc_root target ≡ strip doc_root ++ p)
unfolding path_cat
file_path-IsInside doc_root target legal =
    let slash : starts_with 47 target ≡ true = ground (arith, legal) in
    let flat : has_dots target ≡ false = ground (arith, legal) in
    elim (Bool-cases (ends_slash target)) [
      | inl e ↦ (
        target ++ bytes "index.html",
        (starts_with-append 47 target (bytes "index.html") slash, has_dots-index target e flat),
        rw e (append_assoc (strip doc_root) target (bytes "index.html")),
      )
      | inr e ↦ (target, (slash, flat), rw e (append-nil (strip doc_root ++ target)))
    ]

-- Two file systems that agree on the paths below the root give the same response to every request:
-- a path below the root is the root, less a separator at its end, and then a path that starts with a
-- separator and has no two dots in a row.
pub handle_request-confined :
    (fs fs' : FileSystem) (doc_root : List ℕ) (req : Request)
    → ((p : List ℕ) → IsInside p → fs (strip doc_root ++ p) ≡ fs' (strip doc_root ++ p))
    → handle_request fs doc_root req ≡ handle_request fs' doc_root req
unfolding handle_request
handle_request-confined fs fs' doc_root req same = elim (Bool-cases (is_known req.method)) [
  | inr unknown ↦ rw unknown
  | inl known ↦ elim (Bool-cases (is_legal req.target)) [
    | inr illegal ↦ rw (known, illegal)
    | inl legal ↦
        let (p, inside, e) = file_path-IsInside doc_root req.target legal in
        rw (known, legal)
          (ap (opened req (file_path doc_root req.target))
            (ap fs e ∙ same p inside ∙ sym (ap fs' e)))
  ]
]
