-- ===== src/Http.antt =====
-- The HTTP side of example/webSocket, http_session.cc: the answer to a request, and the states of a
-- session. Parsing, writing and the websocket upgrade are Boost.Beast's; opening a file is a parameter.
-- The field with the server's name, which is always the same, is left out.
pub mod Confined
pub mod Answer
pub mod Listener
pub mod Main
pub mod Whole
pub mod Upgrade
use asio_learn.Base.{
  ℕ, zero, suc, ◌+◌, ◌-◌, Bool, true, false, not, ◌&&◌, ◌||◌, List, [], ◌∷◌, ◌++◌, map, Option,
  none, some, ltb, leb, ◌==◌, if◌then◌else◌, length,
}
use asio_learn.Base.Text.{bytes}

pub data Method : Type 0 where
  get head other : Method

pub record Request : Type 0 where
  pub method : Method
  pub version : ℕ
  pub target : List ℕ
  pub keep_alive : Bool

pub data Status : Type 0 where
  ok bad_request not_found internal_server_error : Status

-- A text, the open file, or nothing.
pub data Body : Type 0 where
  text : List ℕ → Body
  file : List ℕ → Body
  empty : Body

pub record Response : Type 0 where
  pub status : Status
  pub version : ℕ
  pub content_type : List ℕ
  pub keep_alive : Bool
  pub body : Body
  pub content_length : ℕ

-- `body.open(path)`: the file's bytes, no such file, or another error with its message.
pub data Opened : Type 0 where
  found : List ℕ → Opened
  missing : Opened
  failed : List ℕ → Opened

abbrev pub FileSystem : Type 0
FileSystem = List ℕ → Opened

-- `path.substr(path.rfind("."))`, which is empty where there is no dot.
abbrev last_dot : ℕ → List ℕ → List ℕ → List ℕ
last_dot c s [] = if c == 46 then c ∷ s else []
last_dot c s (d ∷ more) = d ∷ more

unfoldable pub extension : List ℕ → List ℕ
extension [] = []
extension (c ∷ s) = last_dot c s (extension s)

abbrev pub to_lower : ℕ → ℕ
to_lower c = if leb 65 c && leb c 90 then c + 32 else c

abbrev pub iequals : List ℕ → List ℕ → Bool
iequals [] [] = true
iequals (c ∷ s) (d ∷ t) = to_lower c == to_lower d && iequals s t
iequals _ _ = false

abbrev pub mime_table : List (List ℕ × List ℕ)
mime_table =
    (bytes ".htm", bytes "text/html")
    ∷ (bytes ".html", bytes "text/html")
    ∷ (bytes ".php", bytes "text/html")
    ∷ (bytes ".css", bytes "text/css")
    ∷ (bytes ".txt", bytes "text/plain")
    ∷ (bytes ".js", bytes "application/javascript")
    ∷ (bytes ".json", bytes "application/json")
    ∷ (bytes ".xml", bytes "application/xml")
    ∷ (bytes ".swf", bytes "application/x-shockwave-flash")
    ∷ (bytes ".flv", bytes "video/x-flv")
    ∷ (bytes ".png", bytes "image/png")
    ∷ (bytes ".jpe", bytes "image/jpeg")
    ∷ (bytes ".jpeg", bytes "image/jpeg")
    ∷ (bytes ".jpg", bytes "image/jpeg")
    ∷ (bytes ".gif", bytes "image/gif")
    ∷ (bytes ".bmp", bytes "image/bmp")
    ∷ (bytes ".ico", bytes "image/vnd.microsoft.icon")
    ∷ (bytes ".tiff", bytes "image/tiff")
    ∷ (bytes ".tif", bytes "image/tiff")
    ∷ (bytes ".svg", bytes "image/svg+xml")
    ∷ (bytes ".svgz", bytes "image/svg+xml")
    ∷ []

-- The chain of tests, down to the last return.
unfoldable pub first_mime : List ℕ → List (List ℕ × List ℕ) → List ℕ
first_mime ext [] = bytes "application/text"
first_mime ext ((e, mime) ∷ table) = if iequals ext e then mime else first_mime ext table

unfoldable pub mime_type : List ℕ → List ℕ
unfolding extension first_mime
mime_type path = first_mime (extension path) mime_table

-- `back() == '/'`
abbrev pub ends_slash : List ℕ → Bool
ends_slash [] = false
ends_slash (c ∷ []) = c == 47
ends_slash (c ∷ d ∷ s) = ends_slash (d ∷ s)

-- The base without a separator at its end.
abbrev pub strip : List ℕ → List ℕ
strip [] = []
strip (c ∷ []) = if c == 47 then [] else c ∷ []
strip (c ∷ d ∷ s) = c ∷ strip (d ∷ s)

-- `path_cat`, where the separator is '/'.
unfoldable pub path_cat : List ℕ → List ℕ → List ℕ
path_cat base path = strip base ++ path

abbrev pub starts_with : ℕ → List ℕ → Bool
starts_with c [] = false
starts_with c (d ∷ s) = d == c

-- `find("..") != npos`
abbrev pub has_dots : List ℕ → Bool
has_dots [] = false
has_dots (c ∷ s) = (c == 46 && starts_with 46 s) || has_dots s

-- The lambdas `bad_request`, `not_found` and `server_error`: a text with its length.
abbrev pub text_response : Status → Request → List ℕ → Response
text_response status req why = record {
  status = status;
  version = req.version;
  content_type = bytes "text/html";
  keep_alive = req.keep_alive;
  body = text why;
  content_length = length why;
}

-- The responses to HEAD and GET for an open file.
abbrev pub file_response : Request → List ℕ → List ℕ → Method → Response
file_response req path contents head = record {
  status = ok;
  version = req.version;
  content_type = mime_type path;
  keep_alive = req.keep_alive;
  body = empty;
  content_length = length contents;
}
file_response req path contents _ = record {
  status = ok;
  version = req.version;
  content_type = mime_type path;
  keep_alive = req.keep_alive;
  body = file contents;
  content_length = length contents;
}

-- What comes of the attempt to open the file.
abbrev pub opened : Request → List ℕ → Opened → Response
opened req path missing =
    text_response not_found req (bytes "The resource '" ++ (req.target ++ bytes "' was not found."))
opened req path (failed message) =
    text_response internal_server_error req (bytes "An error occurred: '" ++ (message ++ bytes "'"))
opened req path (found contents) = file_response req path contents req.method

abbrev pub is_known : Method → Bool
is_known get = true
is_known head = true
is_known other = false

abbrev pub is_legal : List ℕ → Bool
is_legal target = starts_with 47 target && not (has_dots target)

abbrev pub file_path : List ℕ → List ℕ → List ℕ
file_path doc_root target =
    path_cat doc_root target ++ (if ends_slash target then bytes "index.html" else [])

-- `handle_request`
unfoldable pub handle_request : FileSystem → List ℕ → Request → Response
unfolding path_cat mime_type
handle_request fs doc_root req =
    if not (is_known req.method)
    then text_response bad_request req (bytes "Unknown HTTP-method")
    else if not (is_legal req.target)
    then text_response bad_request req (bytes "Illegal request-target")
    else opened req (file_path doc_root req.target) (fs (file_path doc_root req.target))

-- What `on_read` is called with: the end of the stream, another error, an upgrade to a websocket, or a
-- request.
pub data Read : Type 0 where
  end_of_stream : Read
  read_failed : Read
  upgrades : Read
  requests : Request → Read

-- What the session does next: it writes a response, shuts its socket down, stops, or hands the socket
-- to a websocket session.
pub data Next : Type 0 where
  writes : Response → Next
  shuts_down : Next
  stops : Next
  hands_over : Next
  reads_again : Next

unfoldable pub on_read : FileSystem → List ℕ → Read → Next
unfolding handle_request
on_read fs doc_root end_of_stream = shuts_down
on_read fs doc_root read_failed = stops
on_read fs doc_root upgrades = hands_over
on_read fs doc_root (requests req) = writes (handle_request fs doc_root req)

-- `on_write`, by whether the write failed.
unfoldable pub on_write : Bool → Bool → Next
on_write true keep_alive = stops
on_write false false = shuts_down
on_write false true = reads_again
