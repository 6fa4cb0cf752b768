-- ===== src/Beast/Count.antt =====
-- The answers to a sequence of requests, and the number that the count page shows.
use asio_learn.Base.{
  ℕ, ◌+◌, ◌%◌, ◌^◌, ◌<◌, ◌≡◌, refl, ◌∙◌, Bool, true, false, ◌&&◌, ◌||◌, List, [], ◌∷◌, ◌++◌, Option,
  none, some, if◌then◌else◌, length, arith, Bool-cases, inl, inr, ◌⊎◌, Option-cases,
}
use asio_learn.Base.Text.{bytes}
use asio_learn.Base.Optional.{◌>>=◌}
use asio_learn.Beast.{
  Method, get, post, other, Request, Status, ok, bad_request, not_found, Response, Json, text_eq,
  decimal, request_count, before_count, after_count, create_response, answer_email,
  create_post_response, by_method, process_request, serve,
}

abbrev pub is_get : Method → Bool
is_get get = true
is_get _ = false

-- A request for the count page.
abbrev pub is_view : Request → Bool
is_view req = is_get req.method && text_eq req.target (bytes "/count")

abbrev pub views : List (ℕ × Request) → ℕ
views [] = 0
views ((now, req) ∷ reqs) = (if is_view req then 1 else 0) + views reqs

-- The pages that there are.
abbrev pub expected_status : Request → Method → Status
expected_status req get =
    if text_eq req.target (bytes "/count") || text_eq req.target (bytes "/time")
    then ok
    else not_found
expected_status req post = if text_eq req.target (bytes "/email") then ok else not_found
expected_status req other = bad_request

abbrev pub ShowsCount : Bool → ℕ → Response → Type 0
ShowsCount false count r = Unit
ShowsCount true count r = r.body ≡ before_count ++ decimal (request_count count) after_count

abbrev pub counted : Bool → ℕ → ℕ
counted false count = count
counted true count = request_count count

pub record Answers (count : ℕ) (req : Request) (r : Response) : Type 0 where
  pub same_version : r.version ≡ req.version
  pub closes : r.keep_alive ≡ false
  pub whole : r.content_length ≡ length r.body
  pub status_fits : r.status ≡ expected_status req req.method
  pub count_shown : ShowsCount (is_view req) count r

abbrev pub Reports : ℕ → List (ℕ × Request) → List Response → Type 0
Reports count [] [] = Unit
Reports count ((now, req) ∷ reqs) (r ∷ rs) =
    Answers count req r × Reports (counted (is_view req) count) reqs rs
Reports count _ _ = ⊥

module _ (j : Json) where
  -- JsonCpp throws on the body of one of the requests.
  abbrev pub Throws : Request → Type 0
  Throws req = (req.method ≡ post) × (answer_email j (j.parse req.body) ≡ none)

  abbrev pub AnyThrows : List (ℕ × Request) → Type 0
  AnyThrows [] = ⊥
  AnyThrows ((now, req) ∷ reqs) = Throws req ⊎ AnyThrows reqs

  abbrev pub Served : ℕ → List (ℕ × Request) → Option (List Response × ℕ) → Type 0
  Served count reqs none = AnyThrows reqs
  Served count reqs (some (rs, last)) =
      Reports count reqs rs × (last ≡ (count + views reqs) % 2 ^ 64)

  abbrev One : ℕ → Request → Option (Response × ℕ) → Type 0
  One count req none = Throws req
  One count req (some (r, next)) = Answers count req r × (next ≡ counted (is_view req) count)

  get-One :
      (now count : ℕ) (req : Request)
      → req.method ≡ get
      → One count req (some (create_response now count req))
  unfolding create_response
  get-One now count req m = elim (Bool-cases (text_eq req.target (bytes "/count"))) [
    | inl e ↦ rw e (
      record {
        same_version = refl;
        closes = refl;
        whole = refl;
        status_fits = rw (m, e);
        count_shown = rw (m, e) refl;
      },
      rw m,
    )
    | inr e ↦ elim (Bool-cases (text_eq req.target (bytes "/time"))) [
      | inl t ↦
          rw (e, t)
            (
              record {
                same_version = refl;
                closes = refl;
                whole = refl;
                status_fits = rw (m, e, t);
                count_shown = rw (m, e) tt;
              },
              rw m,
            )
      | inr t ↦
          rw (e, t)
            (
              record {
                same_version = refl;
                closes = refl;
                whole = refl;
                status_fits = rw (m, e, t);
                count_shown = rw (m, e) tt;
              },
              rw m,
            )
    ]
  ]

  post-One :
      (now count : ℕ) (req : Request)
      → req.method ≡ post
      → One count req (by_method j now count req post)
  unfolding create_post_response
  post-One now count req m = elim (Bool-cases (text_eq req.target (bytes "/email"))) [
    | inl e ↦ elim (Option-cases (answer_email j (j.parse req.body))) [
      | inl throws ↦ rw (e, throws) (m, throws)
      | inr (text, done) ↦
          rw (e, done)
            (
              record {
                same_version = refl;
                closes = refl;
                whole = refl;
                status_fits = rw (m, e);
                count_shown = rw m tt;
              },
              rw m,
            )
    ]
    | inr e ↦ rw e (
      record {
        same_version = refl;
        closes = refl;
        whole = refl;
        status_fits = rw (m, e);
        count_shown = rw m tt;
      },
      rw m,
    )
  ]

  other-One :
      (now count : ℕ) (req : Request)
      → req.method ≡ other
      → One count req (by_method j now count req other)
  other-One now count req m = (
    record {
      same_version = refl;
      closes = refl;
      whole = refl;
      status_fits = rw m;
      count_shown = rw m tt;
    },
    rw m,
  )

  process_request-One :
      (now count : ℕ) (req : Request) → One count req (process_request j now count req)
  unfolding process_request
  process_request-One now count req = on_method req.method refl
    where
      on_method : (m : Method) → req.method ≡ m → One count req (by_method j now count req m)
      on_method get e = get-One now count req e
      on_method post e = post-One now count req e
      on_method other e = other-One now count req e

  counted-sum :
      (b : Bool) (count more : ℕ)
      → (counted b count + more) % 2 ^ 64 ≡ (count + ((if b then 1 else 0) + more)) % 2 ^ 64
  counted-sum true count more = omega arith
  counted-sum false count more = omega arith

  counted_small : (b : Bool) (count : ℕ) → count < 2 ^ 64 → counted b count < 2 ^ 64
  counted_small true count small = omega arith
  counted_small false count small = small

  cons-Served :
      (now count : ℕ) (req : Request) (reqs : List (ℕ × Request)) (first : Option (Response × ℕ))
      (rest : ℕ → Option (List Response × ℕ))
      → One count req first
      → ((c : ℕ) → c < 2 ^ 64 → Served c reqs (rest c))
      → count < 2 ^ 64
      → Served count ((now, req) ∷ reqs) (first >>= λ f. (rest f.1 >>= λ r. some (f.0 ∷ r.0, r.1)))
  cons-Served now count req reqs none rest o v small = inl o
  cons-Served now count req reqs (some (r, next)) rest (a, e) v small = rw e (
      go (rest (counted (is_view req) count))
        (v (counted (is_view req) count) (counted_small (is_view req) count small)))
    where
      go :
          (o : Option (List Response × ℕ))
          → Served (counted (is_view req) count) reqs o
          → Served count ((now, req) ∷ reqs) (o >>= λ q. some (r ∷ q.0, q.1))
      go none s = inr s
      go (some (rs, last)) (s, l) = ((a, s), l ∙ counted-sum (is_view req) count (views reqs))

  -- Of any sequence of requests: each gets a response of its version, with the length of its body, that
  -- closes the connection, and with the status of its method and target; a GET of `/count` shows the
  -- counter plus one, in decimal, and the counter counts up by these requests alone, modulo 2 ^ 64. Or
  -- JsonCpp throws on the body of a POST among them, which nothing catches.
  pub serve-Served :
      (count : ℕ) (reqs : List (ℕ × Request))
      → count < 2 ^ 64
      → Served count reqs (serve j count reqs)
  unfolding serve
  serve-Served count [] small = (tt, omega arith)
  serve-Served count ((now, req) ∷ reqs) small =
      cons-Served now count req reqs (process_request j now count req) (λ c. serve j c reqs)
        (process_request-One now count req) (λ c. serve-Served c reqs) small
