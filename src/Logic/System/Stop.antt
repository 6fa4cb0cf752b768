-- ===== src/Logic/System/Stop.antt =====
-- The worker after the destructor has set `_b_stop`.
use asio_learn.Base.{◌≡◌, true, [], ◌++◌}
use asio_learn.Logic.System.{Json, System, goes_on, undefined, drain, deal_front, deal_msg, stop}
use asio_learn.Logic.System.Order.{AllAnswerable, answers, drain_lem}

module _ (j : Json) where
  -- Whatever is queued, as long as the callback throws on none of it: the inner loop of a stopped worker
  -- answers the whole queue, each message once and in order, and leaves it empty; and the same turn of
  -- the worker, behind that loop, takes the front of the empty queue, so that it does not return from
  -- `DealMsg`.
  pub stop-undefined :
      (s : System)
      → AllAnswerable j s.msg_que
      → (drain j (stop s) s.msg_que
          ≡ goes_on
              (record { msg_que = []; b_stop = true; replies = s.replies ++ answers j s.msg_que }))
        × (deal_msg j (stop s) ≡ undefined)
  unfolding deal_msg stop deal_front
  stop-undefined s a = (drain_lem j (stop s) s.msg_que a, rw (drain_lem j (stop s) s.msg_que a))
