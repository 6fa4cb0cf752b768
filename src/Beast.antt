-- ===== src/Beast.antt =====
-- example/beastHttpServer/beastHttpServer.cc: the requests of an HTTP server with a counter. Reading
-- and writing a message are Boost.Beast's; JsonCpp and the clock are parameters. The field with the
-- server's name is left out.
pub mod Decimal
pub mod Count
pub mod Connection
pub mod Main
use mathlib.Core.Option
use asio_learn.Base.{
  ℕ, zero, suc, ◌+◌, ◌%◌, ◌/◌, ◌^◌, Bool, true, false, ◌&&◌, List, [], ◌∷◌, ◌++◌, Option, none,
  some, ◌==◌, if◌then◌else◌, length,
}
use asio_learn.Base.Text.{bytes}
use asio_learn.Base.Optional.{◌>>=◌}

pub data Method : Type 0 where
  get post other : Method

pub record Request : Type 0 where
  pub method : Method
  pub method_string : List ℕ
  pub version : ℕ
  pub target : List ℕ
  pub body : List ℕ

pub data Status : Type 0 where
  ok bad_request not_found : Status

pub record Response : Type 0 where
  pub status : Status
  pub version : ℕ
  pub keep_alive : Bool
  pub content_type : List ℕ
  pub body : List ℕ
  pub content_length : ℕ

-- JsonCpp: `parse` gives `none` where it fails, and `member` and `as_string` where they throw; `print`
-- is `toStyledString` of an object with the members that were assigned.
pub record Json : Type 1 where
  pub Value : Type 0
  pub parse : List ℕ → Option Value
  pub member : Value → List ℕ → Option (Value × Value)
  pub as_string : Value → Option (List ℕ)
  pub of_int : ℕ → Value
  pub of_text : List ℕ → Value
  pub print : List (List ℕ × Value) → List ℕ

-- Equality of two texts.
abbrev pub text_eq : List ℕ → List ℕ → Bool
text_eq [] [] = true
text_eq (a ∷ s) (b ∷ t) = a == b && text_eq s t
text_eq _ _ = false

-- A number in decimal, in front of `behind`. Twenty rounds are enough for 64 bits.
unfoldable pub digits : ℕ → ℕ → List ℕ → List ℕ
digits zero n behind = behind
digits (suc rounds) n behind =
    let more = digits rounds (n / 10) ((48 + n % 10) ∷ behind) in
    if n / 10 == 0 then (48 + n % 10) ∷ behind else more

unfoldable pub decimal : ℕ → List ℕ → List ℕ
unfolding digits
decimal n behind = digits 20 n behind

-- `++count` of a `size_t`.
abbrev pub request_count : ℕ → ℕ
request_count count = (count + 1) % 2 ^ 64

-- The two pages.
abbrev pub before_count : List ℕ
before_count =
    bytes
      "<html>\n<head><title>Request count</title></head>\n<body>\n<h1>Request count</h1>\n<p>There have been "

abbrev pub after_count : List ℕ
after_count = bytes " requests so far.</p>\n</body>\n</html>\n"

abbrev pub before_time : List ℕ
before_time =
    bytes
      "<html>\n<head><title>Current time</title></head>\n<body>\n<h1>Current time</h1>\n<p>The current time is "

abbrev pub after_time : List ℕ
after_time = bytes " seconds since the epoch.</p>\n</body>\n</html>\n"

-- A response to be written: `version`, `keep_alive(false)`, and the length that `write_response` sets.
abbrev pub respond : Request → Status → List ℕ → List ℕ → Response
respond req status content_type body = record {
  status = status;
  version = req.version;
  keep_alive = false;
  content_type = content_type;
  body = body;
  content_length = length body;
}

abbrev pub file_not_found : Request → Response
file_not_found req = respond req not_found (bytes "text/plain") (bytes "File not found\r\n")

-- `create_response`, with the counter.
unfoldable pub create_response : ℕ → ℕ → Request → Response × ℕ
unfolding decimal
create_response now count req =
    if text_eq req.target (bytes "/count")
    then (
      respond req ok (bytes "text/html")
          (before_count ++ decimal (request_count count) after_count),
      request_count count,
    )
    else if text_eq req.target (bytes "/time")
    then (respond req ok (bytes "text/html") (before_time ++ decimal now after_time), count)
    else (file_not_found req, count)

module _ (j : Json) where
  -- The object that answers a text that is parsed; the e-mail is read for the log and again.
  unfoldable pub email_object : j.Value → Option (List ℕ)
  email_object src_root = do
    logged ← j.member src_root (bytes "email")
    _ ← j.as_string logged.1
    read ← j.member logged.0 (bytes "email")
    some (
        j.print (
          (bytes "error", j.of_int 0)
          ∷ (bytes "email", read.1)
          ∷ (bytes "msg", j.of_text (bytes "recevie email post success"))
          ∷ []))

  abbrev pub answer_email : Option j.Value → Option (List ℕ)
  answer_email none = some (j.print ((bytes "error", j.of_int 1001) ∷ []))
  answer_email (some src_root) = email_object src_root

  -- `create_post_response`: an exception of JsonCpp leaves `io_context::run`.
  unfoldable pub create_post_response : Request → Option Response
  create_post_response req =
      if text_eq req.target (bytes "/email")
      then Option.map (respond req ok (bytes "text/json")) (answer_email (j.parse req.body))
      else some (file_not_found req)

  -- `process_request` of a request, at a time, with the counter; `none` ends the process.
  abbrev pub by_method : ℕ → ℕ → Request → Method → Option (Response × ℕ)
  by_method now count req get = some (create_response now count req)
  by_method now count req post = Option.map (λ r. (r, count)) (create_post_response req)
  by_method now count req other = some (
    respond req bad_request (bytes "text/plain")
        (bytes "Invalid request-method '" ++ (req.method_string ++ bytes "'")),
    count,
  )

  unfoldable pub process_request : ℕ → ℕ → Request → Option (Response × ℕ)
  process_request now count req = by_method now count req req.method

  -- The requests of some connections, each with its time, in the order in which they are read.
  unfoldable pub serve : ℕ → List (ℕ × Request) → Option (List Response × ℕ)
  serve count [] = some ([], count)
  serve count ((now, req) ∷ reqs) = do
    first ← process_request now count req
    rest ← serve first.1 reqs
    some (first.0 ∷ rest.0, rest.1)
