-- ===== src/Tests/Hello.antt =====
-- example/grpcExample with a name, with and without a server.
use asio_learn.Base.{◌≡◌, refl}
use asio_learn.Base.Text.{bytes}
use asio_learn.Hello.{ok, error, say_hello, client_say_hello}

greeted :
    client_say_hello (λ m. ok (say_hello m)) (bytes "guitou")
    ≡ bytes "HELLO SERVER HAS RECEIVED : guitou"
unfolding client_say_hello say_hello
greeted = refl

not_greeted : client_say_hello (λ _. error (bytes "down")) (bytes "guitou") ≡ bytes "failure down"
unfolding client_say_hello
not_greeted = refl
