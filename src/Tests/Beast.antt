-- ===== src/Tests/Beast.antt =====
-- example/beastHttpServer with a text for a JSON value.
use asio_learn.Beast.Connection as Connections
use asio_learn.Beast.Main
use asio_learn.Beast.Main.{
  Happening, arrives, reads, writes, expires, new_server, step, handle, run, main,
}
use asio_learn.Beast.Main.Serves.{result, run-Served}
use asio_learn.Beast.Main.Finish.{finish_all}
use asio_learn.Beast.Main.Ends.{main-ends}
use asio_learn.Http.Main.{returns, fails}
use asio_learn.Base.{true, false, ◌++◌, ℕ, ◌≡◌, refl, List, [], ◌∷◌, some, none}
use asio_learn.Base.Text.{bytes}
use asio_learn.Beast.{
  Json, Request, get, post, decimal, serve, process_request, create_post_response, create_response,
  email_object,
}
use asio_learn.Beast.Count.{Served}

three_digits : decimal 409 (bytes "!") ≡ bytes "409!"
unfolding decimal
three_digits = refl

-- It throws on a text that is empty.
abbrev plain : Json
plain = record {
  Value = List ℕ;
  parse = λ b. some b;
  member = λ v _. some (v, v);
  as_string = λ v. elim v [ [] ↦ none | c ∷ s ↦ some (c ∷ s) ];
  of_int = λ n. n ∷ [];
  of_text = λ t. t;
  print = λ _. bytes "{}";
}

abbrev view : Request
view = record {
  method = get;
  method_string = bytes "GET";
  version = 11;
  target = bytes "/count";
  body = [];
}

abbrev mail : Request
mail = record {
  method = post;
  method_string = bytes "POST";
  version = 11;
  target = bytes "/email";
  body = bytes "a@b";
}

-- Three connections; the last one sends its request when the deadline of the first has come.
abbrev visits : List Happening
visits =
    arrives false
    ∷ arrives false
    ∷ reads 1 false 5 view
    ∷ arrives false
    ∷ reads 0 false 6 mail
    ∷ expires 0
    ∷ writes 1
    ∷ reads 2 false 8 view
    ∷ []

run-Served_example :
    (result plain (run plain new_server visits)
      ≡ serve plain 0 ((5, view) ∷ (6, mail) ∷ (8, view) ∷ []))
    × Served plain 0
        ((5, view) ∷ (6, mail) ∷ (8, view) ∷ [])
        (result plain (run plain new_server visits))
unfolding Main.run step handle process_request create_response create_post_response email_object
    Connections.start Connections.step
run-Served_example = run-Served plain visits

main-ends_example :
    (main plain false (visits ++ arrives true ∷ finish_all 3) ≡ some returns)
    × (main plain false visits ≡ none)
    × (main plain true visits ≡ some fails)
unfolding Main.run step handle process_request create_response create_post_response email_object
    Connections.start Connections.step
main-ends_example = main-ends plain visits visits refl

empty_mail : process_request plain 5 0 (record mail { body = [] }) ≡ none
unfolding process_request create_post_response email_object
empty_mail = refl
