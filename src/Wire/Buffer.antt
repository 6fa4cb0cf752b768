-- ===== src/Wire/Buffer.antt =====
-- Writes that lie inside an allocation.
use asio_learn.Base.{
  ℕ, ◌+◌, ◌≤◌, ◌≡◌, ap, List, [], ◌∷◌, ◌++◌, arith, length, take, drop, replicate, length-append,
  length-take, length-drop, length-replicate, take-append, suc, le→leb,
}
use asio_learn.Wire.{ok, MsgNode, write_at, clear}

-- It succeeds and keeps the size.
pub write_at_fits :
    (buf : List ℕ) (off : ℕ) (src : List ℕ)
    → off + length src ≤ length buf
    → (b : List ℕ) × (write_at buf off src ≡ ok b) × (length b ≡ length buf)
unfolding write_at
write_at_fits buf off src h = (
  take off buf ++ (src ++ drop (off + length src) buf),
  rw (le→leb (off + length src) (length buf) h),
  omega (
    arith,
    length-append (take off buf) (src ++ drop (off + length src) buf),
    length-append src (drop (off + length src) buf),
    length-take off buf,
    length-drop (off + length src) buf,
  ),
)

drop-append_add : (xs ys : List ℕ) (n : ℕ) → drop (length xs + n) (xs ++ ys) ≡ drop n ys
drop-append_add [] ys n = ap (λ k. drop k ys) (omega arith)
drop-append_add (x ∷ xs) ys n =
    let e : suc (length xs) + n ≡ suc (length xs + n) = omega arith in
    rw e (drop-append_add xs ys n)

-- Behind what is written already, the bytes replace as many of the rest.
pub write_at-append :
    (xs ys src : List ℕ)
    → length src ≤ length ys
    → write_at (xs ++ ys) (length xs) src ≡ ok (xs ++ (src ++ drop (length src) ys))
unfolding write_at
write_at-append xs ys src h = rw (
  le→leb (length xs + length src) (length (xs ++ ys)) (omega (arith, length-append xs ys)),
  take-append xs ys,
  drop-append_add xs ys (length src),
)

pub length-clear : (m : MsgNode) → m.total_len ≤ length m.buf → length (clear m).buf ≡ length m.buf
unfolding clear
length-clear m h = omega (
  arith,
  length-append (replicate m.total_len 0) (drop m.total_len m.buf),
  length-replicate {A = ℕ} m.total_len 0,
  length-drop m.total_len m.buf,
)
