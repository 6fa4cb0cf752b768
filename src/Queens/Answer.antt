-- ===== src/Queens/Answer.antt =====
-- What the server answers: the number of peaceful ways to complete the request's board.
use asio_learn.Base.{
  ℕ, zero, suc, refl, sym, ◌⊎◌, ◌∷◌, lt→ltb, ◌+◌, ◌-◌, ◌%◌, ◌^◌, ◌≤◌, ◌<◌, ◌≡◌, ap, subst, [], ◌++◌,
  some, arith, length, take, drop, replicate, take-append-drop, length-take, length-append,
  length-replicate, ltb, inl, inr, Bool-cases, ltb→le, ltb→lt,
}
use asio_learn.Base.Int.{ℤ, pos, negsuc}
use asio_learn.Queens.Board.{Board, free_row, wrapped}
use asio_learn.Queens.Safe.{Exact, Each}
use asio_learn.Queens.Server.{pad, solve, solve_request}
use asio_learn.Queens.Spec.{solution_count, ways}
use asio_learn.Queens.Brute.{ways-eq-solution_count}
use asio_learn.Queens.Count.{FreeOr, solve-Counts}

pub length-pad : (n : ℕ) (board : Board) → n ≤ length (pad n board)
length-pad n board = elim (Bool-cases (ltb (length board) n)) [
  | inl short ↦ rw short (
      omega (
        arith,
        ltb→lt (length board) n short,
        length-append board (replicate (n - length board) free_row),
        length-replicate (n - length board) free_row,
      ))
  | inr long ↦ rw long (ltb→le (length board) n long)
]

-- A queen's column, from `- lo` up to below `hi`.
abbrev pub InRange : ℕ → ℕ → ℤ → Type 0
InRange lo hi (pos x) = x < hi
InRange lo hi (negsuc x) = x < lo

-- The differences of such columns are `int`s.
abbrev pub Fits32 : ℕ → ℕ → Type 0
Fits32 lo hi = (lo ≡ 0) ⊎ (lo + hi ≤ 2 ^ 31)

wrapped_lem : (d : ℕ) → d < 2 ^ 31 → wrapped d ≡ d
wrapped_lem d small =
    let r : d % 2 ^ 32 ≡ d = omega (arith, small) in rw (r, lt→ltb d (2 ^ 31) small)

InRange-Exact : (lo hi : ℕ) → Fits32 lo hi → Exact (InRange lo hi)
InRange-Exact lo hi fits (pos x) (pos y) p q = refl
InRange-Exact lo hi fits (negsuc x) (negsuc y) p q = refl
InRange-Exact lo hi fits (pos x) (negsuc y) p q =
    wrapped_lem (suc (x + y))
      (elim fits [ inl e ↦ omega (arith, e, p, q) | inr l ↦ omega (arith, l, p, q) ])
InRange-Exact lo hi fits (negsuc x) (pos y) p q =
    wrapped_lem (suc (x + y))
      (elim fits [ inl e ↦ omega (arith, e, p, q) | inr l ↦ omega (arith, l, p, q) ])

-- On any board of at least `n` rows, with queens preset or not, whose preset queens are in columns from
-- `- lo` up to below `hi`, such that `n` is at most `hi` and no difference of two columns overflows:
-- `solve` adds to the counter the number of ways to fill the free rows among the first `n` so that no two
-- of the `n` queens share a column or a diagonal, modulo 2 ^ 32, and it leaves the board as it was.
pub solve_lem :
    (n lo hi : ℕ) (board : Board) (s : ℕ)
    → n ≤ hi
    → Fits32 lo hi
    → Each (FreeOr (InRange lo hi)) (take n board)
    → n ≤ length board
    → s < 2 ^ 32
    → solve (suc n) n board 0 s ≡ (board, (s + solution_count n (take n board)) % 2 ^ 32)
solve_lem n lo hi board s wide fits preset h k =
    let e : take n board ++ drop n board ≡ board = take-append-drop n board in
    let counts =
      solve-Counts (InRange lo hi) (InRange-Exact lo hi fits) (suc n) n [] (take n board)
        (drop n board) (λ x l. omega (arith, l, wide)) tt preset
        (omega (arith, length-take n board)) (omega (arith, length-take n board)) s k in
    rw (← ways-eq-solution_count n (take n board))
      (subst (λ b. solve (suc n) n b 0 s ≡ (b, (s + ways n [] (take n board)) % 2 ^ 32)) e counts)

-- The server's answer to a request with `n` not negative and such a partial board: the number of peaceful
-- completions of the padded board, modulo 2 ^ 32.
pub solve_request_lem :
    (n lo hi : ℕ) (partial : Board)
    → n ≤ hi
    → Fits32 lo hi
    → Each (FreeOr (InRange lo hi)) (take n (pad n partial))
    → solve_request (record { n = pos n; partial = partial })
      ≡ some (solution_count n (take n (pad n partial)) % 2 ^ 32)
unfolding solve_request
solve_request_lem n lo hi partial wide fits preset =
    rw (solve_lem n lo hi (pad n partial) 0 wide fits preset (length-pad n partial) (omega arith))
      (ap (λ t. some (t % 2 ^ 32)) (omega arith))

pub replicate-FreeOr : (P : ℤ → Type 0) (k : ℕ) → Each (FreeOr P) (replicate k free_row)
replicate-FreeOr P zero = tt
replicate-FreeOr P (suc k) = (inl refl, replicate-FreeOr P k)

-- The answer to a task of `distribute_tasks`.
pub solve_task_lem :
    (k col : ℕ)
    → col ≤ k
    → take (suc k) (pad (suc k) (pos col ∷ replicate k free_row)) ≡ pos col ∷ replicate k free_row
    → solve_request (record { n = pos (suc k); partial = pos col ∷ replicate k free_row })
      ≡ some (
          solution_count (suc k) (take (suc k) (pad (suc k) (pos col ∷ replicate k free_row)))
          % 2 ^ 32)
solve_task_lem k col l e =
    solve_request_lem (suc k) 0 (suc k) (pos col ∷ replicate k free_row) (omega arith) (inl refl) (
      subst (Each (FreeOr (InRange 0 (suc k)))) (sym e)
        (inr (omega (arith, l)), replicate-FreeOr (InRange 0 (suc k)) k))
