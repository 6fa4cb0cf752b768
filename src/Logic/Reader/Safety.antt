-- ===== src/Logic/Reader/Safety.antt =====
-- What `HandleRead` does on any bytes at all, from any state that it leaves.
use asio_learn.Base.{
  ℕ, zero, suc, ◌+◌, ◌-◌, ◌<◌, ◌≡◌, refl, inl, inr, Bool, true, false, Option, none, some, List, [],
  ◌∷◌, arith, ltb, length, take, drop, length-take, length-drop, Bool-cases, ltb→lt, ltb→le,
}
use asio_learn.Wire.{RecvNode}
use asio_learn.Wire.Endian.{Host}
use asio_learn.Wire.Buffer.{write_at_fits}
use asio_learn.Logic.Reader.{
  Reader, Outcome, Round, again, stop, above_max, take_head, head_round, dispatch, round, resume,
  read_loop, handle_read,
}
use asio_learn.Logic.Reader.Memory.{new_recv_node-Made}
use asio_learn.Logic.Reader.Valid.{
  IsHead, HasBody, IsValid, head_id, head_len, Explains, GoesWell, body_round-GoesWell,
  take_node-GoesWell,
}

take_head-GoesWell :
    (h : Host) (r : Reader) (n : ℕ) (rest : List ℕ)
    → IsHead r.head
    → length rest < n
    → GoesWell h n (take_head h r rest)
unfolding take_head
take_head-GoesWell h r n rest v l = elim (Bool-cases (above_max (head_id h r))) [
  | inl e ↦ rw e (inl e)
  | inr e ↦ elim (Bool-cases (above_max (head_len h r))) [
    | inl e' ↦ rw (e, e') (inr e')
    | inr e' ↦
        rw (e, e')
          (take_node-GoesWell h r _ n rest v (new_recv_node-Made (head_len h r) (head_id h r)) l)
  ]
]

head_round-GoesWell :
    (h : Host) (r : Reader) (bytes : List ℕ)
    → IsHead r.head
    → r.head_parsed ≡ false
    → GoesWell h (length bytes) (head_round h r bytes)
unfolding head_round
head_round-GoesWell h r bytes v e = elim (Bool-cases (ltb (length bytes + r.head.cur_len) 4)) [
  | inl few ↦
      let lt = ltb→lt _ _ few in
      let (b, w, s) = write_at_fits r.head.buf r.head.cur_len bytes (omega arith) in
      rw (few, w, e)
        (record {
          head_ok = record { unmoved = v.unmoved; four = v.four; allocated = omega arith };
          body_ok = tt;
        })
  | inr enough ↦
      let le = ltb→le _ _ enough in
      let (b, w, s) =
        write_at_fits r.head.buf r.head.cur_len (take (4 - r.head.cur_len) bytes)
          (omega (arith, length-take (4 - r.head.cur_len) bytes)) in
      rw (enough, w)
        (take_head-GoesWell h _ (length bytes) (drop (4 - r.head.cur_len) bytes)
          (record { unmoved = v.unmoved; four = v.four; allocated = omega arith })
          (omega (arith, length-drop (4 - r.head.cur_len) bytes)))
]

dispatch-GoesWell :
    (h : Host) (r : Reader) (bytes : List ℕ) (parsed : Bool) (msg : Option RecvNode)
    → r.head_parsed ≡ parsed
    → IsHead r.head
    → HasBody parsed msg
    → GoesWell h (length bytes) (dispatch h r bytes parsed msg)
dispatch-GoesWell h r bytes false msg e v b = head_round-GoesWell h r bytes v e
dispatch-GoesWell h r bytes true none e v b = absurd b
dispatch-GoesWell h r bytes true (some node) e v b = body_round-GoesWell h r node bytes v e b

round-GoesWell :
    (h : Host) (r : Reader) (bytes : List ℕ)
    → IsValid r
    → GoesWell h (length bytes) (round h r bytes)
unfolding round
round-GoesWell h r bytes v =
    dispatch-GoesWell h r bytes r.head_parsed r.msg refl v.head_ok v.body_ok

resume-Explains :
    (h : Host) (n : ℕ) (loop : Reader → List ℕ → List RecvNode → Outcome) (posted : List RecvNode)
    (d : Round)
    → ((r : Reader) (rest : List ℕ) (nodes : List RecvNode)
        → IsValid r
        → 0 < length rest
        → length rest < n
        → Explains h (loop r rest nodes).reader (loop r rest nodes).next)
    → GoesWell h n d
    → let o = resume loop posted d in Explains h o.reader o.next
resume-Explains h n loop posted (again r rest node) k g = k r rest _ g.0 g.1 g.2
resume-Explains h n loop posted (stop r nodes next) k g = g

read_loop-Explains :
    (h : Host) (fuel : ℕ) (r : Reader) (bytes : List ℕ) (posted : List RecvNode)
    → IsValid r
    → 0 < length bytes
    → length bytes < fuel
    → let o = read_loop h fuel r bytes posted in Explains h o.reader o.next
unfolding read_loop
read_loop-Explains h zero r bytes posted v some_left enough = elim enough [ ]
read_loop-Explains h (suc fuel) r [] posted v some_left enough = elim some_left [ ]
read_loop-Explains h (suc fuel) r (b ∷ bytes) posted v some_left enough =
    resume-Explains h (suc (length bytes)) (read_loop h fuel) posted (round h r (b ∷ bytes))
      (λ r' rest posted' v' p l. read_loop-Explains h fuel r' rest posted' v' p (omega arith))
      (round-GoesWell h r (b ∷ bytes) v)

-- Whatever bytes arrive (at least one), in a state that satisfies the invariant, `HandleRead` ends
-- in one of four ways, and each has its reason. It starts the next read in a state that satisfies
-- the invariant again; or it clears the session, and the head that it holds has an id or a length
-- above `MAX_LENGTH`; or it is left by the exception of `new`, and the length is negative but not
-- -1; or it writes out of range, and the length is -1. The loop always ends.
pub handle_read-Explains :
    (h : Host) (r : Reader) (bytes : List ℕ)
    → IsValid r
    → 0 < length bytes
    → let o = handle_read h r (some bytes) in Explains h o.reader o.next
unfolding handle_read
handle_read-Explains h r bytes v l =
    read_loop-Explains h (suc (length bytes)) r bytes [] v l (omega arith)
