-- ===== src/Rate/Tests/Middleware.antt =====
-- A server of three requests in ten nanoseconds.
use my_go.Common.{ℤ, String, List, [], ◌∷◌, none}
use my_go.Rate.Middleware.{Request}
use my_go.Rate.Middleware.Serving.{HttpEvent, arrives, swept}

abbrev from_address : String → Request
from_address address = record {
  header = λ name. "";
  remote_addr = address;
  path = "/";
  value = λ name. none;
}

-- Digits do not matter to who is served.
abbrev one_digit : ℤ → String
one_digit n = "0"

abbrev events : List HttpEvent
events =
    arrives 100 (from_address "10.0.0.1")
    ∷ arrives 102 (from_address "10.0.0.1")
    ∷ arrives 103 (from_address "10.0.0.2")
    ∷ arrives 105 (from_address "10.0.0.1")
    ∷ swept 106
    ∷ []
