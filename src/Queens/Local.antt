-- ===== src/Queens/Local.antt =====
-- The client's own solver counts all solutions.
use asio_learn.Base.{
  ℕ, zero, suc, ◌+◌, ◌%◌, ◌^◌, ◌<◌, ◌≡◌, refl, ap, ◌∙◌, true, false, [], ◌∷◌, ◌++◌, some, arith,
  ◌==◌, length, replicate, append-nil,
}
use asio_learn.Base.Int.{ℤ, pos, negsuc}
use asio_learn.Queens.Board.{Board, free_row}
use asio_learn.Queens.Server.{for_cols}
use asio_learn.Queens.Client.{incr64, backtrack, local_solve}
use asio_learn.Queens.Spec.{solution_count, ways}
use asio_learn.Queens.Brute.{ways-eq-solution_count}
use asio_learn.Queens.Safe.{Exact, Each, Each-snoc}
use asio_learn.Queens.Count.{Counts, below_lem, for_cols_lem, length-snoc}

backtrack-end :
    (fuel n : ℕ) (board : Board) (row s : ℕ)
    → (row == n) ≡ true
    → backtrack (suc fuel) n board row s ≡ (board, incr64 s)
unfolding backtrack
backtrack-end fuel n board row s e = rw (e, backtrack)

backtrack-row :
    (fuel n : ℕ) (board : Board) (row s : ℕ)
    → (row == n) ≡ false
    → backtrack (suc fuel) n board row s
      ≡ for_cols (λ b t. backtrack fuel n b (suc row) t) n 0 board row s
unfolding backtrack
backtrack-row fuel n board row s e = rw (e, backtrack)

-- A column: no difference of two of them overflows.
abbrev IsColumn : ℤ → Type 0
IsColumn (pos x) = Unit
IsColumn (negsuc x) = ⊥

IsColumn-Exact : Exact IsColumn
IsColumn-Exact (pos x) (pos y) p q = refl
IsColumn-Exact (pos x) (negsuc y) p q = absurd q
IsColumn-Exact (negsuc x) y p q = absurd p

backtrack-Counts :
    (fuel n k : ℕ) (above extra : Board)
    → Each IsColumn above
    → length above + k ≡ n
    → k < fuel
    → Counts (2 ^ 64) n (backtrack fuel n) above (replicate k free_row) extra
backtrack-Counts zero n k above extra placed e f s h = elim f [ ]
backtrack-Counts (suc fuel) n zero above extra placed e f s h =
    backtrack-end fuel n (above ++ extra) (length above) s (ground arith)
backtrack-Counts (suc fuel) n (suc k) above extra placed e f s h =
    let cells = replicate k free_row in
    rw (backtrack-row fuel n (above ++ free_row ∷ (cells ++ extra)) (length above) s (ground arith))
      (for_cols_lem IsColumn IsColumn-Exact (2 ^ 64) above (cells ++ extra)
        (λ b t. backtrack fuel n b (suc (length above)) t) (λ x. ways n (above ++ x ∷ []) cells)
        (omega arith) placed
        (λ x p. below_lem (2 ^ 64) n (backtrack fuel n) above cells extra x (
          backtrack-Counts fuel n k (above ++ x ∷ []) extra (Each-snoc IsColumn above x placed p)
            (omega (arith, length-snoc above x)) (omega arith)))
        n 0 s (λ x l. tt) h)

pub local_solve-ways :
    (n : ℕ) → local_solve (pos n) ≡ some (ways n [] (replicate n free_row) % 2 ^ 64)
unfolding local_solve
local_solve-ways n =
    let counts =
      backtrack-Counts (suc n) n n [] [] tt (omega arith) (omega arith) 0 (omega arith) in
    ap (λ r. some r.1) (rw append-nil at counts) ∙ ap (λ t. some (t % 2 ^ 64)) (omega arith)

-- For every `n` that is not negative the local solver returns the number of peaceful boards of `n`
-- queens, modulo 2 ^ 64.
pub local_solve_lem :
    (n : ℕ) → local_solve (pos n) ≡ some (solution_count n (replicate n free_row) % 2 ^ 64)
local_solve_lem n =
    local_solve-ways n
    ∙ ap (λ w. some (w % 2 ^ 64)) (ways-eq-solution_count n (replicate n free_row))
