-- ===== src/Co/Reader/Agree.antt =====
-- The coroutine against `HandleRead` of example/logicServer, on the same bytes.
use asio_learn.Base.{
  ℕ, ◌≡◌, refl, sym, ap, ◌∙◌, List, [], ◌∷◌, ◌++◌, map, some, arith, take, concat, append_assoc,
  append-nil,
}
use asio_learn.Wire.Endian.{Host}
use asio_learn.Wire.{RecvNode}
use asio_learn.Logic.Reader.{Reader, run_reads, read_more}
use asio_learn.Logic.Reader.Frames.{
  Message, frame, frames, head_node, Place, boundary, whole_node, Stands,
}
use asio_learn.Logic.Reader.Stream.{
  Arrives, done, chunk, pending, Carries-frames, run_reads-Delivered,
}
use asio_learn.Co.Reader.{closed, session_start}
use asio_learn.Co.Reader.Steps.{filled_node}
use asio_learn.Co.Reader.Rounds.{AllSpeak, cut_head}
use asio_learn.Co.Reader.Stream.{session_start-frames}

frames-append : (h : Host) (ms ns : List Message) → frames h (ms ++ ns) ≡ frames h ms ++ frames h ns
frames-append h [] ns = refl
frames-append h (m ∷ ms) ns =
    ap (◌++◌ (frame h m)) (frames-append h ms ns)
    ∙ sym (append_assoc (frame h m) (frames h ms) (frames h ns))

-- The chunks together are the frames of what they carry.
Arrives-frames :
    {h : Host} {p q : Place} {cs : List (List ℕ)} {ms : List Message}
    → Arrives h p cs ms q
    → pending h p ++ concat cs ≡ frames h ms ++ pending h q
Arrives-frames {h} {p} done = append-nil (pending h p)
Arrives-frames {h} {p} {q} (chunk {c = c} {cs = cs} {ms = ms} {ns = ns} {q = mid} l carries later) =
    sym (append_assoc (pending h p) c (concat cs))
    ∙ ap (λ b. b ++ concat cs) (Carries-frames carries)
    ∙ append_assoc (frames h ms) (pending h mid) (concat cs)
    ∙ ap (◌++◌ (frames h ms)) (Arrives-frames later)
    ∙ sym (append_assoc (frames h ms) (frames h ns) (pending h q))
    ∙ ap (λ b. b ++ pending h q) (sym (frames-append h ms ns))

-- What the worker makes of a posted message: its id and its text, which is `_cur_len` bytes in
-- example/logicServer and `_total_len` bytes here.
abbrev pub content : RecvNode → ℕ × List ℕ
content n = (n.msg_id, take n.node.cur_len n.node.buf)

abbrev pub whole_content : RecvNode → ℕ × List ℕ
whole_content n = (n.msg_id, take n.node.total_len n.node.buf)

content-whole_node :
    (ms : List Message) → map whole_content (map filled_node ms) ≡ map content (map whole_node ms)
content-whole_node [] = refl
content-whole_node (m ∷ ms) = ap (◌∷◌ (content (whole_node m))) (content-whole_node ms)

-- From the bytes of accepted messages that are not empty, read in any chunks of which none ends inside
-- a head, `HandleRead` posts the same messages as the coroutine, which reads the same bytes whole; then
-- `HandleRead` waits for more, and the coroutine ends as the peer closes.
pub session_start-run_reads :
    (h : Host) {cs : List (List ℕ)} {ms : List Message}
    → Arrives h boundary cs ms boundary
    → AllSpeak ms
    → (r : Reader) → Stands r boundary
    → (buf : List ℕ)
    → let s = session_start h (head_node buf) (concat cs) in
      let o = run_reads h r (map some cs) in
      (map whole_content s.posted ≡ map content o.posted)
      × (s.ending ≡ closed)
      × (o.next ≡ read_more)
session_start-run_reads h {cs} {ms} arrives speak r stands buf =
    let bytes : concat cs ≡ frames h ms ++ [] = Arrives-frames arrives in
    let ran = session_start-frames h ms buf [] closed speak (cut_head [] (omega arith)) in
    let delivered = run_reads-Delivered h arrives r stands in
    (
      ap (λ b. map whole_content (session_start h (head_node buf) b).posted) bytes
          ∙ ap (map whole_content) ran.0
          ∙ content-whole_node ms
          ∙ ap (map content) (sym delivered.0),
      ap (λ b. (session_start h (head_node buf) b).ending) bytes ∙ ran.1,
      delivered.1,
    )
