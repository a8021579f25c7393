-- ===== src/Config/Tests.antt =====
-- A load of three sources on a concrete input, of which the last one fails.
use my_go.Common.{◌≡◌, refl, pos, List, String, [], ◌∷◌, ◌++◌, some, false, ok, err}
use my_go.Config.{
  text, number, leaf, node, Entries, empty, entry, find, get_nested_value, load, load_env,
  set_nested_value, put,
}
use my_go.Config.Environment.{is_blocked, load-env_wins}
use my_go.Config.Merging.{Distinct, load-wins}

abbrev defaults : Entries
defaults =
    entry "server"
      (node (entry "port" (leaf (number (pos 80))) (entry "host" (leaf (text "local")) empty)))
      empty

abbrev from_file : Entries
from_file = entry "server" (node (entry "port" (leaf (number (pos 8080))) empty)) empty

load-wins_example :
    get_nested_value
      (node (load (ok defaults ∷ ok from_file ∷ err "no environment" ∷ [])))
      ("server" ∷ "port" ∷ [])
    ≡ some (leaf (number (pos 8080)))
unfolding find get_nested_value Distinct
load-wins_example =
    load-wins (ok defaults ∷ []) (err "no environment" ∷ []) from_file ("server" ∷ "port" ∷ [])
      (number (pos 8080)) (refl, (refl, tt, tt), tt) tt refl

abbrev host_variable : List (List String × String)
host_variable = ("server" ∷ "host" ∷ [], "0.0.0.0") ∷ []

port_is_free : is_blocked (load_env empty host_variable) ("server" ∷ "port" ∷ []) ≡ false
unfolding is_blocked load_env set_nested_value find put
port_is_free = refl

load-env_wins_example :
    let env = load_env empty (host_variable ++ (("server" ∷ "port" ∷ [], "9090") ∷ [])) in
    get_nested_value (node (load ((ok defaults ∷ []) ++ (ok env ∷ [])))) ("server" ∷ "port" ∷ [])
    ≡ some (leaf (text "9090"))
load-env_wins_example =
    load-env_wins (ok defaults ∷ []) host_variable ("server" ∷ "port" ∷ []) "9090" port_is_free
