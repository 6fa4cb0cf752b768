-- ===== src/Co/System.antt =====
-- `LogicSystem`, example/BoostCoServer/LogicSystem.cc. The state, the callback (whose text is that of
-- example/logicServer) and its JSON library are those of Logic/System.
pub mod Stop
use mathlib.Core.Option
use asio_learn.Base.{
  ℕ, zero, suc, ◌≡◌, ◌≢◌, refl, Bool, true, false, List, [], ◌∷◌, ◌++◌, Option, none, some, ◌==◌,
  if◌then◌else◌, take, append_assoc, append-nil, Bool-cases, inl, inr, Option-cases, length,
}
use asio_learn.Logic.System.{Json, LogicNode, Reply, System, msg_hello_word, hello_word}

-- A turn of the worker goes on with a state, returns from `DealMsg` with one, waits, or ends the
-- process by an exception of the callback.
pub data Turn : Type 0 where
  goes_on : System → Turn
  returns : System → Turn
  waits : Turn
  terminates : Turn

module _ (j : Json) where
  -- `std::string(_data, _total_len)`
  abbrev pub msg_text : LogicNode → List ℕ
  msg_text m = take m.recvnode.total_len m.recvnode.buf

  -- The callback of the front, if its id has one.
  unfoldable pub called : System → LogicNode → Option System
  called s m =
      if m.recvnode.msg_id == msg_hello_word
      then Option.map (λ (r : Reply). record s { replies = s.replies ++ r ∷ [] })
          (hello_word j m.session (msg_text m))
      else some s

  abbrev pub and_then : Option System → (System → Turn) → Turn
  and_then none f = terminates
  and_then (some s) f = f s

  -- The inner `while` of a stopped worker, and its `break`.
  unfoldable pub drain : System → List LogicNode → Turn
  drain s [] = returns (record s { msg_que = [] })
  drain s (m ∷ que) = and_then (called s m) (λ t. drain t que)

  -- One turn of `DealMsg`.
  abbrev pub deal : System → Bool → List LogicNode → Turn
  deal s true que = drain s que
  deal s false [] = waits
  deal s false (m ∷ que) = and_then (called s m) (λ t. goes_on (record t { msg_que = que }))

  unfoldable pub deal_msg : System → Turn
  deal_msg s = deal s s.b_stop s.msg_que

-- `PostMsgToQue`, and whether it notifies the worker.
unfoldable pub post_msg : System → LogicNode → System × Bool
post_msg s m = let que = s.msg_que ++ m ∷ [] in (record s { msg_que = que }, length que == 1)

-- The destructor up to `join`.
unfoldable pub stop : System → System
stop s = record s { b_stop = true }
