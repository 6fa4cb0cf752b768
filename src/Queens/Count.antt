-- ===== src/Queens/Count.antt =====
-- The recursive `solve` of the server counts what `ways` counts, and gives the board back.
use native.Mathlib.Nat.{mod-add-mod, mod-eq_of_lt, mod-lt, add-zero}
use asio_learn.Base.{
  ℕ, zero, suc, ◌+◌, ◌%◌, ◌^◌, ◌<◌, ◌≡◌, refl, sym, ap, ◌∙◌, Bool, true, false, [], ◌∷◌, ◌++◌,
  append_assoc, arith, if◌then◌else◌, ◌==◌, ◌⊎◌, inl, inr, Bool-cases, length, get_or,
  get_or-append, set-append, length-append,
}
use asio_learn.Base.Int.{ℤ, pos, negsuc, eq_ℤ}
use asio_learn.Queens.Board.{Board, free_row, is_safe}
use asio_learn.Queens.Server.{incr32, try_col, for_cols, solve}
use asio_learn.Queens.Spec.{clear_above, columns, choices, sum_over, ways}
use asio_learn.Queens.Safe.{Exact, Each, Each-snoc, is_safe-clear_above}

pub eq_free_row : (c : ℤ) → eq_ℤ c free_row ≡ true → c ≡ free_row
eq_free_row (pos a) h = cc
eq_free_row (negsuc a) h = ap negsuc (ground arith)

-- The rows below a free row `length above` of a board, solved by `below` for a queen in any column:
-- `below` gives the board back and adds `w x` to the counter, which runs modulo `m`.
module _ (P : ℤ → Type 0) (exact : Exact P) (m : ℕ) (above rest : Board)
    (below : Board → ℕ → Board × ℕ) (w : ℤ → ℕ) (m_pos : 0 < m) (placed : Each P above)
    (solves : (x : ℤ)
      → P x
      → (t : ℕ) → t < m
      → below (above ++ x ∷ rest) t ≡ (above ++ x ∷ rest, (t + w x) % m)) where
  abbrev counted : ℤ → ℕ
  counted x = if clear_above above x then w x else 0

  keep : (s : ℕ) → s < m → s ≡ (s + 0) % m
  keep s h = rw add-zero (sym (mod-eq_of_lt h))

  try_col_lem :
      (s : ℕ) (x : ℤ)
      → P x
      → s < m
      → try_col below (above ++ free_row ∷ rest) (length above) s x
        ≡ (above ++ free_row ∷ rest, (s + counted x) % m)
  unfolding try_col
  try_col_lem s x p h = elim (Bool-cases (clear_above above x)) [
    | inl c ↦ rw (
      is_safe-clear_above P exact above (free_row ∷ rest) x placed p,
      c,
      set-append above rest free_row x,
      solves x p s h,
      set-append above rest x free_row,
      try_col,
    )
    | inr c ↦
        rw (is_safe-clear_above P exact above (free_row ∷ rest) x placed p, c, try_col)
          (ap (λ t. (above ++ free_row ∷ rest, t)) (keep s h))
  ]

  pub for_cols_lem :
      (rounds col s : ℕ)
      → ((x : ℕ) → x < col + rounds → P (pos x))
      → s < m
      → for_cols below rounds col (above ++ free_row ∷ rest) (length above) s
        ≡ (above ++ free_row ∷ rest, (s + sum_over counted (columns col rounds)) % m)
  unfolding for_cols
  for_cols_lem zero col s cols h = ap (λ t. (above ++ free_row ∷ rest, t)) (keep s h)
  for_cols_lem (suc rounds) col s cols h =
      rw
        (
          try_col_lem s (pos col) (cols col (omega arith)) h,
          for_cols_lem rounds (suc col) ((s + counted (pos col)) % m)
              (λ x l. cols x (omega (arith, l))) (mod-lt _ m_pos),
          mod-add-mod,
        )
        (ap (λ t. (above ++ free_row ∷ rest, t % m)) (omega arith))

-- What the loop over the columns adds is what the choices of the row's cell add.
ways-cons :
    (n : ℕ) (above : Board) (cell : ℤ) (cells : Board)
    → ways n above (cell ∷ cells)
      ≡ sum_over
          (λ x. if clear_above above x then ways n (above ++ x ∷ []) cells else 0)
          (choices n cell)
ways-cons n above cell cells = refl

-- A recursion as `solve` and `backtrack` make it, from the row behind `above` on: it counts the
-- ways to fill `cells` modulo `m` and gives the board back.
abbrev pub Counts : ℕ → ℕ → (Board → ℕ → ℕ → Board × ℕ) → Board → Board → Board → Type 0
Counts m n run above cells extra =
    (s : ℕ)
    → s < m
    → run (above ++ (cells ++ extra)) (length above) s
      ≡ (above ++ (cells ++ extra), (s + ways n above cells) % m)

regroup :
    (above cells extra : Board) (x : ℤ)
    → above ++ x ∷ (cells ++ extra) ≡ (above ++ x ∷ []) ++ (cells ++ extra)
regroup above cells extra x = sym (append_assoc above (x ∷ []) (cells ++ extra))

pub length-snoc : (above : Board) (x : ℤ) → length (above ++ x ∷ []) ≡ suc (length above)
length-snoc above x = omega (arith, length-append above (x ∷ []))

-- A queen placed behind `above`, with the rows below it left to the recursion.
pub below_lem :
    (m n : ℕ) (run : Board → ℕ → ℕ → Board × ℕ) (above cells extra : Board) (x : ℤ)
    → Counts m n run (above ++ x ∷ []) cells extra
    → (s : ℕ) → s < m
    → run (above ++ x ∷ (cells ++ extra)) (suc (length above)) s
      ≡ (above ++ x ∷ (cells ++ extra), (s + ways n (above ++ x ∷ []) cells) % m)
below_lem m n run above cells extra x rec s h =
    rw (regroup above cells extra x, ← length-snoc above x) (rec s h)

-- The four ways through `solve`.
solve-end :
    (fuel n : ℕ) (board : Board) (row s : ℕ)
    → (row == n) ≡ true
    → solve (suc fuel) n board row s ≡ (board, incr32 s)
unfolding solve
solve-end fuel n board row s e = rw (e, solve)

module _ (fuel n : ℕ) (board : Board) (row s : ℕ) (inside : (row == n) ≡ false) where
  solve-free :
      eq_ℤ (get_or board row free_row) free_row ≡ true
      → solve (suc fuel) n board row s
        ≡ for_cols (λ b t. solve fuel n b (suc row) t) n 0 board row s
  unfolding solve
  solve-free e = rw (inside, e, solve)

  solve-queen :
      eq_ℤ (get_or board row free_row) free_row ≡ false
      → is_safe board row (get_or board row free_row) ≡ true
      → solve (suc fuel) n board row s ≡ solve fuel n board (suc row) s
  unfolding solve
  solve-queen e c = rw (inside, e, c, solve)

  solve-attacked :
      eq_ℤ (get_or board row free_row) free_row ≡ false
      → is_safe board row (get_or board row free_row) ≡ false
      → solve (suc fuel) n board row s ≡ (board, s)
  unfolding solve
  solve-attacked e c = rw (inside, e, c, solve)

-- One row of `solve`, where the rows below are counted right.
module _ (P : ℤ → Type 0) (exact : Exact P) (fuel n : ℕ) (above cells extra : Board)
    (placed : Each P above)
    (rest : (x : ℤ) → P x → Counts (2 ^ 32) n (solve fuel n) (above ++ x ∷ []) cells extra)
    (inside : (length above == n) ≡ false) where
  below :
      (x : ℤ)
      → P x
      → (t : ℕ) → t < 2 ^ 32
      → solve fuel n (above ++ x ∷ (cells ++ extra)) (suc (length above)) t
        ≡ (above ++ x ∷ (cells ++ extra), (t + ways n (above ++ x ∷ []) cells) % 2 ^ 32)
  below x p = below_lem (2 ^ 32) n (solve fuel n) above cells extra x (rest x p)

  row-free-Counts :
      ((x : ℕ) → x < n → P (pos x))
      → Counts (2 ^ 32) n (solve (suc fuel) n) above (free_row ∷ cells) extra
  row-free-Counts cols s h =
      rw
        (solve-free fuel n (above ++ free_row ∷ (cells ++ extra)) (length above) s inside
          (rw (get_or-append above (cells ++ extra) free_row free_row)))
        (for_cols_lem P exact (2 ^ 32) above (cells ++ extra)
          (λ b t. solve fuel n b (suc (length above)) t) (λ x. ways n (above ++ x ∷ []) cells)
          (omega arith) placed below n 0 s (λ x l. cols x (omega (arith, l))) h)

  row-queen-Counts :
      (c : ℤ)
      → P c
      → eq_ℤ c free_row ≡ false
      → Counts (2 ^ 32) n (solve (suc fuel) n) above (c ∷ cells) extra
  row-queen-Counts c p e s h = elim (Bool-cases (clear_above above c)) [
    | inl k ↦
        rw
          (
            solve-queen fuel n (above ++ c ∷ (cells ++ extra)) (length above) s inside queen
                (safe k),
            below c p s h,
            e,
            k,
          )
          (ap (λ t. (above ++ c ∷ (cells ++ extra), t % 2 ^ 32)) (omega arith))
    | inr k ↦
        rw
          (
            solve-attacked fuel n (above ++ c ∷ (cells ++ extra)) (length above) s inside queen
                (safe k),
            e,
            k,
          )
          (ap (λ t. (above ++ c ∷ (cells ++ extra), t)) (omega arith))
  ]
    where
      here : get_or (above ++ c ∷ (cells ++ extra)) (length above) free_row ≡ c
      here = get_or-append above (cells ++ extra) c free_row

      queen : eq_ℤ (get_or (above ++ c ∷ (cells ++ extra)) (length above) free_row) free_row ≡ false
      queen = rw here e

      safe :
          {b : Bool}
          → clear_above above c ≡ b
          → is_safe
              (above ++ c ∷ (cells ++ extra))
              (length above)
              (get_or (above ++ c ∷ (cells ++ extra)) (length above) free_row)
            ≡ b
      safe k = rw here (is_safe-clear_above P exact above (c ∷ (cells ++ extra)) c placed p ∙ k)

-- A row is free, or has a queen of the given kind.
abbrev pub FreeOr : (ℤ → Type 0) → ℤ → Type 0
FreeOr P c = (c ≡ free_row) ⊎ P c

pub solve-Counts :
    (P : ℤ → Type 0) (exact : Exact P) (fuel n : ℕ) (above cells extra : Board)
    → ((x : ℕ) → x < n → P (pos x))
    → Each P above
    → Each (FreeOr P) cells
    → length above + length cells ≡ n
    → length cells < fuel
    → Counts (2 ^ 32) n (solve fuel n) above cells extra
solve-Counts P exact zero n above cells extra cols placed preset e f s h = elim f [ ]
solve-Counts P exact (suc fuel) n above [] extra cols placed preset e f s h =
    solve-end fuel n (above ++ extra) (length above) s (ground arith)
solve-Counts P exact (suc fuel) n above (c ∷ cells) extra cols placed preset e f s h =
    let row : (length above == n) ≡ false = ground arith in
    let rest = λ (x : ℤ) (p : P x).
      solve-Counts P exact fuel n (above ++ x ∷ []) cells extra cols (Each-snoc P above x placed p)
        preset.1 (omega (arith, length-snoc above x)) (omega arith) in
    elim (Bool-cases (eq_ℤ c free_row)) [
      | inl free ↦
          rw (eq_free_row c free)
            (row-free-Counts P exact fuel n above cells extra placed rest row cols s h)
      | inr queen ↦
          let p : P c = elim preset.0 [
            | inl free ↦ absurd (cc (queen, ap (λ c. eq_ℤ c free_row) free))
            | inr p ↦ p
          ] in
          row-queen-Counts P exact fuel n above cells extra placed rest row c p queen s h
    ]
