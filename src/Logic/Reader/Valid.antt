-- ===== src/Logic/Reader/Valid.antt =====
-- The invariant of a reader, the reasons for which `HandleRead` ends, and the rounds of a body.
use asio_learn.Base.{
  ℕ, ◌-◌, ◌≤◌, ◌<◌, ◌≡◌, ◌≢◌, refl, ◌⊎◌, inl, inr, Bool, true, false, Option, none, some, List, [],
  ◌∷◌, arith, ltb, length, get_or, drop, length-drop, Bool-cases, ltb→lt, ltb→le, le→leb,
}
use asio_learn.Wire.{Result, ok, throws, faults, MsgNode, RecvNode, clear}
use asio_learn.Wire.Endian.{Host, short_at}
use asio_learn.Wire.Buffer.{length-clear}
use asio_learn.Logic.Reader.{
  Reader, Next, read_more, no_read, cleared, closed, stalled, undefined, out_of_fuel, Round, again,
  stop, attempt, above_max, finish, start_body, remain_msg, body_round,
}
use asio_learn.Logic.Reader.Memory.{IsSized, Made, receive_fits, complete_fits}

-- The node of the head: four bytes and the terminator, never advanced.
pub record IsHead (m : MsgNode) : Type 0 where
  pub unmoved : m.cur_len ≡ 0
  pub four : m.total_len ≡ 4
  pub allocated : length m.buf ≡ 5

-- The node of a body that is being received: some of it is missing.
pub record IsPartial (n : RecvNode) : Type 0 where
  pub sized : IsSized n
  pub missing : n.cur_len < n.total_len

abbrev pub HasBody : Bool → Option RecvNode → Type 0
HasBody false m = Unit
HasBody true none = ⊥
HasBody true (some n) = IsPartial n

pub record IsValid (r : Reader) : Type 0 where
  pub head_ok : IsHead r.head
  pub body_ok : HasBody r.head_parsed r.msg

-- The two numbers of the head that a reader holds.
abbrev pub head_id : Host → Reader → ℕ
head_id h r = short_at h (get_or r.head.buf 0 0) (get_or r.head.buf 1 0)

abbrev pub head_len : Host → Reader → ℕ
head_len h r = short_at h (get_or r.head.buf 2 0) (get_or r.head.buf 3 0)

-- The reason for each way in which a call can end.
abbrev pub Explains : Host → Reader → Next → Type 0
Explains h r read_more = IsValid r
Explains h r cleared = (above_max (head_id h r) ≡ true) ⊎ (above_max (head_len h r) ≡ true)
Explains h r stalled = (0x8000 ≤ head_len h r) × (head_len h r ≢ 0xffff)
Explains h r undefined = head_len h r ≡ 0xffff
Explains h r no_read = ⊥
Explains h r closed = ⊥
Explains h r out_of_fuel = ⊥

abbrev pub GoesWell : Host → ℕ → Round → Type 0
GoesWell h n (again r rest node) = IsValid r × (0 < length rest) × (length rest < n)
GoesWell h n (stop r nodes next) = Explains h r next

finish-GoesWell :
    (h : Host) (n : ℕ) (r : Reader) (node : RecvNode) (rest : List ℕ)
    → IsHead r.head
    → length rest < n
    → GoesWell h n (finish r node rest)
unfolding clear
finish-GoesWell h n r node [] v l = record {
  head_ok = record {
    unmoved = refl;
    four = v.four;
    allocated = omega (arith, length-clear r.head (omega arith));
  };
  body_ok = tt;
}
finish-GoesWell h n r node (b ∷ rest) v l = (
  record {
    head_ok = record {
      unmoved = refl;
      four = v.four;
      allocated = omega (arith, length-clear r.head (omega arith));
    };
    body_ok = tt;
  },
  omega arith,
  l,
)

remain_msg_lem : (n : RecvNode) → n.cur_len ≤ n.total_len → remain_msg n ≡ n.total_len - n.cur_len
unfolding remain_msg
remain_msg_lem n h = rw (le→leb n.cur_len n.total_len h)

-- A node takes exactly what it still needs, or all that there is.
pub body_round-GoesWell :
    (h : Host) (r : Reader) (node : RecvNode) (bytes : List ℕ)
    → IsHead r.head
    → r.head_parsed ≡ true
    → IsPartial node
    → GoesWell h (length bytes) (body_round r node bytes)
unfolding body_round
body_round-GoesWell h r node bytes v e p =
    elim (Bool-cases (ltb (length bytes) (node.total_len - node.cur_len))) [
      | inl few ↦
          let lt = ltb→lt _ _ few in
          let (m, got, s, c, t) = receive_fits node bytes p.sized (omega arith) in
          rw (remain_msg_lem node p.sized.within, few, got, e)
            (record { head_ok = v; body_ok = record { sized = s; missing = omega arith } })
      | inr enough ↦
          let le = ltb→le _ _ enough in
          let (m, got) =
            complete_fits node (node.total_len - node.cur_len) bytes (λ w. w.total_len) p.sized
              (omega arith) (λ w s. omega arith) in
          rw (remain_msg_lem node p.sized.within, enough, got)
            (finish-GoesWell h (length bytes) r m (drop (node.total_len - node.cur_len) bytes) v
              (omega (arith, length-drop (node.total_len - node.cur_len) bytes, p.missing)))
    ]

-- The node that is made for the body, and what of the body has come.
start_body-GoesWell :
    (h : Host) (r : Reader) (node : RecvNode) (msg_len n : ℕ) (rest : List ℕ)
    → IsHead r.head
    → IsSized node
    → node.cur_len ≡ 0
    → node.total_len ≡ msg_len
    → length rest < n
    → GoesWell h n (start_body r node msg_len rest)
unfolding start_body
start_body-GoesWell h r node msg_len n rest v s c t l =
    elim (Bool-cases (ltb (length rest) msg_len)) [
      | inl few ↦
          let lt = ltb→lt (length rest) msg_len few in
          let (m, got, s', c', t') = receive_fits node rest s (omega arith) in
          rw (few, got)
            (record { head_ok = v; body_ok = record { sized = s'; missing = omega arith } })
      | inr enough ↦
          let (m, got) =
            complete_fits node msg_len rest (λ w. w.cur_len) s (omega arith) (λ w s. s.within) in
          rw (enough, got)
            (finish-GoesWell h n r m (drop msg_len rest) v
              (omega (arith, length-drop msg_len rest)))
    ]

pub take_node-GoesWell :
    (h : Host) (r : Reader) (made : Result RecvNode) (n : ℕ) (rest : List ℕ)
    → IsHead r.head
    → Made (head_len h r) made
    → length rest < n
    → GoesWell h n (attempt r made (λ node. start_body r node (head_len h r) rest))
take_node-GoesWell h r (ok node) n rest v m l =
    start_body-GoesWell h r node (head_len h r) n rest v m.0 m.1 m.2 l
take_node-GoesWell h r throws n rest v m l = m
take_node-GoesWell h r faults n rest v m l = m
