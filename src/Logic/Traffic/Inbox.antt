-- ===== src/Logic/Traffic/Inbox.antt =====
-- What the sessions send: the events of one session, and its messages in the queue of the worker.
use asio_learn.Base.{
  ℕ, ◌≡◌, refl, ap, ◌∙◌, Bool, false, ◌||◌, List, [], ◌∷◌, ◌++◌, Option, map, ◌==◌, if◌then◌else◌,
  ==_refl, append_assoc, append-nil, Bool-cases, inl, inr,
}
use asio_learn.Logic.Reader.Frames.{Message, whole_node}
use asio_learn.Logic.System.{LogicNode, System, post_msg}
use asio_learn.Logic.System.Own.{own_messages}
use asio_learn.Logic.Exchange.{post_all}
use asio_learn.Logic.Traffic.{Event, arrives, works, writes}

-- The reads of a session.
abbrev pub reads_of : ℕ → List Event → List (Option (List ℕ))
reads_of u [] = []
reads_of u (arrives v c ∷ es) = let rest = reads_of u es in if v == u then c ∷ rest else rest
reads_of u (works ∷ es) = reads_of u es
reads_of u (writes v failed ∷ es) = reads_of u es

-- Whether a write of a session fails.
abbrev pub fails : ℕ → List Event → Bool
fails u [] = false
fails u (arrives v c ∷ es) = fails u es
fails u (works ∷ es) = fails u es
fails u (writes v failed ∷ es) = (if v == u then failed else false) || fails u es

-- A message of session `u` in the queue of the logic system.
abbrev pub logic_node : ℕ → Message → LogicNode
logic_node u m = record { session = u; recvnode = whole_node m }

abbrev pub logic_nodes : ℕ → List Message → List LogicNode
logic_nodes u ms = map (logic_node u) ms

pub own_messages-append :
    (u : ℕ) (ms ns : List LogicNode)
    → own_messages u (ms ++ ns) ≡ own_messages u ms ++ own_messages u ns
own_messages-append u [] ns = refl
own_messages-append u (m ∷ ms) ns = elim (Bool-cases (m.session == u)) [
  | inl own ↦ rw (own, own_messages-append u ms ns)
  | inr foreign ↦ rw (foreign, own_messages-append u ms ns)
]

pub own_messages-own :
    (u : ℕ) (ms : List Message) → own_messages u (logic_nodes u ms) ≡ logic_nodes u ms
own_messages-own u [] = refl
own_messages-own u (m ∷ ms) = rw (==_refl u, own_messages-own u ms)

pub own_messages-others :
    (v u : ℕ) (ms : List Message) → (v == u) ≡ false → own_messages u (logic_nodes v ms) ≡ []
own_messages-others v u [] e = refl
own_messages-others v u (m ∷ ms) e = rw (e, own_messages-others v u ms e)

abbrev pub idle_system : List LogicNode → System
idle_system que = record { msg_que = que; b_stop = false; replies = [] }

pub post_all-nodes :
    (v : ℕ) (que : List LogicNode) (ms : List Message)
    → post_all (idle_system que) v (map whole_node ms) ≡ idle_system (que ++ logic_nodes v ms)
unfolding post_all post_msg
post_all-nodes v que [] = rw append-nil
post_all-nodes v que (m ∷ ms) =
    post_all-nodes v (que ++ logic_nodes v (m ∷ [])) ms
    ∙ ap idle_system (append_assoc que (logic_nodes v (m ∷ [])) (logic_nodes v ms))

-- `Send` and the socket only add to what has been accepted.
