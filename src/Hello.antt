-- ===== src/Hello.antt =====
-- example/grpcExample: `GreeterServiceImpl::SayHello` of grpcDemoServer.cc and `FCClient::SayHello` of
-- grpcDemoClient.cc. The call between them (gRPC) is a parameter: it gives the reply, or the message
-- of a status other than OK.
use asio_learn.Base.{get_or, ℕ, ◌≡◌, ◌≢◌, List, ◌++◌, arith, drop, drop-append, ap}
use asio_learn.Base.Text.{bytes}

pub data Status : Type 0 where
  ok : List ℕ → Status
  error : List ℕ → Status

-- The server's reply to a request's message.
unfoldable pub say_hello : List ℕ → List ℕ
say_hello message = bytes "HELLO SERVER HAS RECEIVED : " ++ message

abbrev pub text_of : Status → List ℕ
text_of (ok message) = message
text_of (error message) = bytes "failure " ++ message

-- The client, with the call.
unfoldable pub client_say_hello : (List ℕ → Status) → List ℕ → List ℕ
client_say_hello call name = text_of (call name)

-- The text that the client prints tells the reply from an error: what stands behind the server's
-- words is the name, what stands behind "failure " is the message of the error, and no reply is taken
-- for an error.
client_say_hello-tells :
    (name why : List ℕ)
    → (drop 28 (client_say_hello (λ m. ok (say_hello m)) name) ≡ name)
      × (drop 8 (client_say_hello (λ _. error why) name) ≡ why)
      × (client_say_hello (λ m. ok (say_hello m)) name ≢ client_say_hello (λ _. error why) name)
unfolding client_say_hello say_hello
client_say_hello-tells name why = (
  drop-append (bytes "HELLO SERVER HAS RECEIVED : ") name,
  drop-append (bytes "failure ") why,
  λ same. let e : ◌≡◌ {A = ℕ} 72 102 = ap (λ l. get_or l 0 0) same in absurd (omega (arith, e)),
)
