-- ===== src/Http/Answer.antt =====
-- The answer to HEAD beside the answer to GET, and the requests of one connection.
use asio_learn.Base.{
  ℕ, ◌≡◌, refl, Bool, true, false, not, List, [], ◌∷◌, ◌++◌, map, if◌then◌else◌, Bool-cases, inl,
  inr,
}
use asio_learn.Base.Text.{bytes}
use asio_learn.Http.{
  Method, get, head, other, bad_request, text_response, Request, Response, text, file, empty,
  FileSystem, Opened, found, missing, failed, opened, is_legal, file_path, handle_request, Read,
  requests, Next, writes, shuts_down, stops, reads_again, on_read, on_write,
}

abbrev pub with_method : Request → Method → Request
with_method req m = record req { method = m }

-- A response without the bytes of its file.
abbrev pub without_file : Response → Response
without_file r = record r {
  body = elim r.body [ text t ↦ text t | file f ↦ empty | empty ↦ empty ];
}

opened-head :
    (req : Request) (path : List ℕ) (o : Opened)
    → opened (with_method req head) path o ≡ without_file (opened (with_method req get) path o)
opened-head req path (found contents) = refl
opened-head req path missing = refl
opened-head req path (failed message) = refl

-- On every branch the response to HEAD is the one to GET for the same target, with the file's bytes
-- left out: status, type, length, version and the keep-alive flag are equal, and so is an error's
-- text.
handle_request-head :
    (fs : FileSystem) (doc_root : List ℕ) (req : Request)
    → handle_request fs doc_root (with_method req head)
      ≡ without_file (handle_request fs doc_root (with_method req get))
unfolding handle_request
handle_request-head fs doc_root req = elim (Bool-cases (is_legal req.target)) [
  | inl legal ↦
      rw legal
        (opened-head req (file_path doc_root req.target) (fs (file_path doc_root req.target)))
  | inr illegal ↦ rw illegal
]

-- A connection: the reads that complete, each with whether the write after it fails, as long as the
-- session reads again; the responses that are written without error, and how it ends.
pub record Connection : Type 0 where
  pub responses : List Response
  pub last : Next

abbrev pub after_write : Next → Response → Connection → Connection
after_write reads_again r rest = record { responses = r ∷ rest.responses; last = rest.last }
after_write stops r rest = record { responses = []; last = stops }
after_write next r rest = record { responses = r ∷ []; last = next }

abbrev pub after_read : Next → Bool → Connection → Connection
after_read (writes r) broken rest = after_write (on_write broken r.keep_alive) r rest
after_read next broken rest = record { responses = []; last = next }

module _ (fs : FileSystem) (doc_root : List ℕ) where
  unfoldable pub connection : List (Read × Bool) → Connection
  connection [] = record { responses = []; last = reads_again }
  connection ((r, broken) ∷ rs) =
      let rest = connection rs in after_read (on_read fs doc_root r) broken rest

  -- All of them ask for the connection to be kept.
  abbrev pub AllKept : List Request → Type 0
  AllKept [] = Unit
  AllKept (r ∷ rs) = (r.keep_alive ≡ true) × AllKept rs

  abbrev pub asked : List Request → List (Read × Bool)
  asked rs = map (λ r. (requests r, false)) rs

  opened-keep_alive :
      (req : Request) (path : List ℕ) (m : Method) (o : Opened)
      → (opened (with_method req m) path o).keep_alive ≡ req.keep_alive
  opened-keep_alive req path get (found c) = refl
  opened-keep_alive req path head (found c) = refl
  opened-keep_alive req path other (found c) = refl
  opened-keep_alive req path m missing = refl
  opened-keep_alive req path m (failed e) = refl

  -- The response asks for the connection to be kept where the request does.
  pub handle_request-keep_alive :
      (req : Request) → (handle_request fs doc_root req).keep_alive ≡ req.keep_alive
  unfolding handle_request
  handle_request-keep_alive req = on_method req.method
    where
      on_legal :
          (m : Method)
          → (if not (is_legal req.target)
              then text_response bad_request req (bytes "Illegal request-target")
              else opened
                  (with_method req m)
                  (file_path doc_root req.target)
                  (fs (file_path doc_root req.target))).keep_alive
            ≡ req.keep_alive
      on_legal m = elim (Bool-cases (is_legal req.target)) [
        | inl legal ↦ rw legal (
            opened-keep_alive req (file_path doc_root req.target) m
              (fs (file_path doc_root req.target)))
        | inr illegal ↦ rw illegal
      ]

      on_method :
          (m : Method)
          → (handle_request fs doc_root (with_method req m)).keep_alive ≡ req.keep_alive
      on_method get = on_legal get
      on_method head = on_legal head
      on_method other = refl

  -- Requests that ask for the connection to be kept, and then one that does not: each gets the
  -- response of `handle_request`, in order, and the socket is shut down behind the last; what would
  -- be read after it has no effect.
  pub connection-kept :
      (rs : List Request) (r : Request) (more : List (Read × Bool))
      → AllKept rs
      → r.keep_alive ≡ false
      → connection (asked rs ++ (requests r, false) ∷ more)
        ≡ record { responses = map (handle_request fs doc_root) (rs ++ r ∷ []); last = shuts_down }
  unfolding connection on_read on_write
  connection-kept [] r more k closes = rw (handle_request-keep_alive r, closes)
  connection-kept (q ∷ rs) r more (kq, k) closes =
      rw (connection-kept rs r more k closes, handle_request-keep_alive q, kq)
