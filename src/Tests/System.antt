-- ===== src/Tests/System.antt =====
-- example/logicServer/LogicSystem.cc with a text for a JSON value.
use asio_learn.Tests.Data.{plain}
use asio_learn.Base.{true, arith, suc, ◌≡◌, refl, ◌++◌, ◌∷◌, [], false, List, some}
use asio_learn.Logic.System.{
  LogicNode, System, drain, and_then, goes_on, deal_msg, stop, undefined, hello_word,
}
use asio_learn.Logic.System.Order.{
  Answerable, Event, posts, works, answers, Handled, run, run-Handled,
}
use asio_learn.Logic.System.Own
use asio_learn.Logic.System.Own.{own_replies, run-own_replies}
use asio_learn.Logic.System.Wake
use asio_learn.Logic.System.Wake.{
  Threads, started, stopping, waiting, decided, alive, joining, Step, tests, blocks, posts,
  sets_flag, notifies_stop, step, Reach, here, next,
}
use asio_learn.Logic.System.Wake.Posted.{AllOwn, post_served}
use asio_learn.Logic.System.Wake.Lost.{IsStuck, stop_lost}
use asio_learn.Logic.System.Order.{answers}
use asio_learn.Logic.System.Stop.{stop-undefined}
use asio_learn.Logic.Traffic.Atomic.{queued, post_all, turn-post_all}

abbrev greeting : LogicNode
greeting = record {
  session = 3;
  recvnode = record {
    node = record { cur_len = 2; total_len = 2; buf = 104 ∷ 105 ∷ 0 ∷ [] };
    msg_id = 1001;
  };
}

abbrev other : LogicNode
other = record {
  session = 4;
  recvnode = record {
    node = record { cur_len = 1; total_len = 1; buf = 120 ∷ 0 ∷ [] };
    msg_id = 9;
  };
}

greeting-Answerable : Answerable plain greeting
unfolding hello_word
greeting-Answerable known none_sent = cc none_sent

other-Answerable : Answerable plain other
unfolding hello_word
other-Answerable known none_sent = cc none_sent

abbrev schedule : List Event
schedule = works ∷ posts greeting ∷ posts other ∷ works ∷ posts greeting ∷ []

run-Handled_example :
    (done : List LogicNode) × (todo : List LogicNode) × (done ++ todo
      ≡ greeting ∷ other ∷ greeting ∷ [])
    × Handled plain done todo
        (run plain (record { msg_que = []; b_stop = false; replies = [] }) schedule)
run-Handled_example =
    run-Handled plain schedule [] []
      (greeting-Answerable, (other-Answerable, (greeting-Answerable, tt)))

run-own_replies_example :
    (s : System) × (run plain Own.started (schedule ++ works ∷ works ∷ works ∷ []) ≡ goes_on s)
    × (s.msg_que ≡ [])
    × (own_replies 3 s.replies ≡ answers plain (greeting ∷ greeting ∷ []))
run-own_replies_example =
    run-own_replies plain schedule 3
      (greeting-Answerable, (other-Answerable, (greeting-Answerable, tt)))

abbrev busy : System
busy = record { msg_que = greeting ∷ other ∷ []; b_stop = false; replies = [] }

stop-undefined_example :
    (drain plain (stop busy) busy.msg_que
      ≡ goes_on (record { msg_que = []; b_stop = true; replies = answers plain busy.msg_que }))
    × (deal_msg plain (stop busy) ≡ undefined)
stop-undefined_example = stop-undefined plain busy (greeting-Answerable, (other-Answerable, tt))

-- The worker waits, and a message is posted.
abbrev posted_once : Threads
posted_once = record {
  worker = waiting;
  que = 1;
  b_stop = false;
  notifying = 1;
  destructor = alive;
}

posted_once-Reach : Reach started posted_once
unfolding step
posted_once-Reach = next posts (next blocks (next tests here refl) refl) refl

post_served_example :
    (es : List Step) × (u : Threads) × AllOwn es
    × (Wake.run posted_once es ≡ some u)
    × (suc u.que ≡ 1)
post_served_example = post_served posted_once posted_once-Reach refl (omega arith)

abbrev deciding : Threads
deciding = record { worker = decided; que = 0; b_stop = false; notifying = 0; destructor = alive }

stop_lost_example :
    (u : Threads) × (Wake.run deciding (sets_flag ∷ notifies_stop ∷ blocks ∷ []) ≡ some u)
    × (u.worker ≡ waiting)
    × (u.destructor ≡ joining)
    × IsStuck u
stop_lost_example = stop_lost deciding refl refl refl

turn-post_all_example :
    and_then plain
      (deal_msg plain (queued plain (greeting ∷ other ∷ []) []))
      (λ t. goes_on (post_all plain (other ∷ greeting ∷ []) t))
    ≡ deal_msg plain
        (post_all plain (other ∷ greeting ∷ []) (queued plain (greeting ∷ other ∷ []) []))
turn-post_all_example = turn-post_all plain (other ∷ greeting ∷ []) greeting (other ∷ []) []
