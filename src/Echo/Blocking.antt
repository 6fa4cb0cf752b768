-- ===== src/Echo/Blocking.antt =====
-- example/coExample: the listener of coServer.cc, and the client coClient.cc, which sends one line and
-- reads as many bytes as it sent.
use asio_learn.Base.{
  ℕ, ◌≤◌, ◌<◌, ◌≡◌, refl, ap, List, [], ◌∷◌, Option, none, some, take, length, concat, leb,
  if◌then◌else◌, ◌==◌, arith, le→leb, take-length, length-take,
}
use asio_learn.Echo.{waits, echo, messages, behind}

-- `listener`: an accept that fails throws, and ends it. The connections that get an `echo`.
unfoldable pub listener : List (Option ℕ) → List ℕ
listener [] = []
listener (none ∷ accepts) = []
listener (some c ∷ accepts) = c ∷ listener accepts

-- `strlen`
abbrev pub until_null : List ℕ → List ℕ
until_null [] = []
until_null (c ∷ s) = let rest = c ∷ until_null s in if c == 0 then [] else rest

-- `cin.getline(request, MAX_LENGTH)` of a line, and the bytes up to the first null.
unfoldable pub request_of : List ℕ → List ℕ
request_of line = until_null (take 1023 line)

-- `read` of as many bytes as were sent: it waits until they have come (`none`).
unfoldable pub read_reply : List ℕ → List ℕ → Option (List ℕ)
read_reply request stream =
    if leb (length request) (length stream) then some (take (length request) stream) else none

-- The client and one `echo`, which gets the request in the given pieces.
unfoldable pub exchange : List ℕ → List (List ℕ) → Option (List ℕ)
exchange line pieces = read_reply (request_of line) (concat (echo (messages pieces)).written)

echo-messages :
    (ds : List (List ℕ)) → echo (messages ds) ≡ record { written = ds; standing = waits }
unfolding echo
echo-messages [] = refl
echo-messages (d ∷ ds) = ap (behind d) (echo-messages ds)

until_null-shorter : (s : List ℕ) → length (until_null s) ≤ length s
until_null-shorter [] = omega arith
until_null-shorter (c ∷ s) = ground (arith, until_null-shorter s)

-- Whatever the pieces in which the request reaches the server, the client gets its request back, and
-- both fit the arrays of 1024 bytes.
exchange-request :
    (line : List ℕ) (pieces : List (List ℕ))
    → concat pieces ≡ request_of line
    → (exchange line pieces ≡ some (request_of line)) × (length (request_of line) < 1024)
unfolding exchange read_reply request_of
exchange-request line pieces e = (
  rw (
    echo-messages pieces,
    e,
    le→leb (length (request_of line)) (length (request_of line)) (omega arith),
    take-length (request_of line),
  ),
  omega (arith, until_null-shorter (take 1023 line), length-take 1023 line),
)
