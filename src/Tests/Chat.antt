-- ===== src/Tests/Chat.antt =====
-- example/webSocket with two sessions.
use asio_learn.Base.{
  ℕ, ◌≡◌, ◌<◌, refl, false, true, not, ◌&&◌, ◌==◌, List, [], ◌∷◌, ◌++◌, none, length, ◌⊎◌,
}
use asio_learn.Chat.{Text, step, on_accept, on_read, join, leave, send_all, send, on_send, on_write}
use asio_learn.Chat.Life as Lives
use asio_learn.Chat.Life.{Life}
use asio_learn.Chat.Life.Texts.{pending, spoken_by, texts, texts_by}
use asio_learn.Chat.Life.Delivered.{run-delivered}
use asio_learn.Chat.Life.End.{run-ends, last_events, work_events}
use asio_learn.Logic.Server.{has_session}
use asio_learn.Chat.Sound.{heard}

-- Two sessions are created and join; then session 9 sends a text, ends, and its address is used again.
abbrev opened : List Lives.Event
opened = Lives.creates 4 ∷ Lives.accepts 4 false ∷ Lives.creates 9 ∷ Lives.accepts 9 false ∷ []

abbrev spoke : List Lives.Event
spoke =
    Lives.reads 9 false (104 ∷ [])
    ∷ Lives.sends 9
    ∷ Lives.sends 9
    ∷ Lives.sends 9
    ∷ Lives.runs 4
    ∷ Lives.runs 9
    ∷ Lives.ends_write 9 false
    ∷ Lives.reads 9 true []
    ∷ Lives.destroys 9
    ∷ Lives.creates 9
    ∷ Lives.accepts 9 false
    ∷ Lives.reads 9 false (105 ∷ [])
    ∷ []

-- Session 4 is created while session 9 talks, and joins after that; then both talk.
abbrev joined : Life
joined =
    Lives.step
      (Lives.run
        (Lives.step (Lives.run Lives.empty (Lives.creates 9 ∷ Lives.accepts 9 false ∷ []))
          (Lives.creates 4))
        (Lives.reads 9 false (103 ∷ []) ∷ Lives.sends 9 ∷ Lives.sends 9 ∷ []))
      (Lives.accepts 4 false)

abbrev talk : List Lives.Event
talk =
    Lives.reads 9 false (104 ∷ [])
    ∷ Lives.sends 9
    ∷ Lives.reads 4 false (105 ∷ [])
    ∷ Lives.sends 4
    ∷ Lives.sends 4
    ∷ Lives.sends 9
    ∷ Lives.sends 9
    ∷ Lives.runs 4
    ∷ Lives.reads 9 true []
    ∷ Lives.runs 9
    ∷ Lives.ends_write 9 true
    ∷ []

abbrev talked : Life
talked = Lives.run joined talk

-- Session 4 hears the two texts in one order, session 9 in the other.
talked-heard :
    (heard (talked.chat.session 4) ≡ (104 ∷ []) ∷ (105 ∷ []) ∷ [])
    × (heard (talked.chat.session 9) ≡ (103 ∷ []) ∷ (105 ∷ []) ∷ (104 ∷ []) ∷ [])
unfolding Lives.run Lives.step Lives.enabled Lives.perform step on_accept on_read join leave
    send_all send on_send on_write
talked-heard = (refl, refl)

run-delivered_example :
    (talked.lives 4 ≡ true)
    × ((posted : List (ℕ × Text)) × ((heard (talked.chat.session 4) ≡ texts posted)
          × ((u : ℕ)
              → texts_by u posted ++ pending 4 (talked.chat.sending u) ≡ spoken_by u joined talk)
          × (((Lives.run talked (work_events (talked.chat.session 4) 4)).chat.session 4).written
              ≡ texts posted)))
unfolding Lives.run Lives.step Lives.enabled Lives.perform step on_accept on_read join leave
    send_all send on_send on_write
run-delivered_example =
    run-delivered (Lives.creates 9 ∷ Lives.accepts 9 false ∷ [])
      (Lives.reads 9 false (103 ∷ []) ∷ Lives.sends 9 ∷ Lives.sends 9 ∷ []) talk 4 refl refl refl
      refl

-- Session 9 has sent a text and ends before it is written to it.
abbrev ending : List Lives.Event
ending =
    opened
    ++ Lives.reads 9 false (104 ∷ [])
      ∷ Lives.sends 9
      ∷ Lives.sends 9
      ∷ Lives.sends 9
      ∷ Lives.reads 9 true []
      ∷ []

abbrev at_end : Life
at_end = Lives.run Lives.empty ending

abbrev after_end : Life
after_end = Lives.run at_end (last_events (at_end.chat.session 9) 9)

run-ends_example :
    (after_end.lives 9 ≡ false)
    × ((v : ℕ)
        → has_session v after_end.chat.sessions
          ≡ (not (9 == v) && has_session v at_end.chat.sessions))
    × (((after_end.chat.session 9).written ≡ (104 ∷ []) ∷ [])
        ⊎ (((at_end.chat.session 9).flight ≡ none) × (0 < length (at_end.chat.session 9).queue)))
unfolding Lives.run Lives.step Lives.enabled Lives.perform step on_accept on_read join leave
    send_all send on_send on_write
run-ends_example = run-ends ending 9 refl refl refl refl
