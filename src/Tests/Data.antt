-- ===== src/Tests/Data.antt =====
-- Values that several tests share: JsonCpp with a text for a value, and a message.
use asio_learn.Base.{ℕ, List, [], ◌∷◌, some, refl, arith}
use asio_learn.Logic.System.{Json}
use asio_learn.Logic.Reader.Frames.{Message, IsMessage}

abbrev pub plain : Json
plain = record {
  Value = List ℕ;
  parse = λ b. b;
  member = λ v _. some (v, v);
  as_int = λ _. some 1001;
  as_string = λ v. some v;
  assign = λ _ _ t. some t;
  to_styled_string = λ v. v;
}

abbrev pub hello : Message
hello = record { id = 1001; body = 104 ∷ 105 ∷ [] }

pub hello-IsMessage : IsMessage hello
hello-IsMessage = record { short_id = omega arith; accepted = refl; fits = omega arith }
