-- ===== src/Config.antt =====
-- Configuration from several sources, internal/pkg/config: nested maps, of provider.go and manager.go.
-- A value that is no map is a scalar; the environment only gives texts.
pub mod Merging
pub mod Environment
mod Tests
use my_go.Common.{
  ℤ, pos, Duration, String, List, [], ◌∷◌, Option, none, some, Bool, true, false, if◌then◌else◌,
  Fallible, ok, err, str_eq,
}

-- A float64 is as the whole number that `int` makes of it, and a duration as its nanoseconds.
pub data Scalar : Type 0 where
  text : String → Scalar
  number float_number : ℤ → Scalar
  duration : Duration → Scalar
  other_value : String → Scalar

mutual
  pub data Value : Type 0 where
    leaf : Scalar → Value
    node : Entries → Value

  pub data Entries : Type 0 where
    empty : Entries
    entry : String → Value → Entries → Entries

unfoldable pub find : String → Entries → Option Value
find wanted empty = none
find wanted (entry key v rest) = if str_eq key wanted then some v else find wanted rest

unfoldable pub put : String → Value → Entries → Entries
put new value empty = entry new value empty
put new value (entry key v rest) =
    let kept = put new value rest in
    if str_eq key new then entry new value rest else entry key v kept

-- The loop of `mergeMaps` over its second map, from the copy of the first.
unfoldable mutual
  pub merge_maps : Entries → Entries → Entries
  merge_maps a empty = a
  merge_maps a (entry key v rest) = merge_maps (put key (merge_value (find key a) v) a) rest

  pub merge_value : Option Value → Value → Value
  merge_value none v = v
  merge_value (some (leaf t)) v = v
  merge_value (some (node a)) (leaf t) = leaf t
  merge_value (some (node a)) (node b) = node (merge_maps a b)

-- `getNestedValue`, on the parts of the key.
unfoldable pub get_nested_value : Value → List String → Option Value
get_nested_value v [] = some v
get_nested_value (leaf t) (key ∷ keys) = none
get_nested_value (node es) (key ∷ keys) = elim (find key es) [
  | none ↦ none
  | some v ↦ get_nested_value v keys
]

-- `Load` of the manager, as far as the merged map: a provider that fails is left out.
unfoldable pub load_from : Entries → List (Fallible String Entries) → Entries
load_from merged [] = merged
load_from merged (err e ∷ rest) = load_from merged rest
load_from merged (ok es ∷ rest) = load_from (merge_maps merged es) rest

unfoldable pub load : List (Fallible String Entries) → Entries
load providers = load_from empty providers

-- `Load` of the file provider: of the global and the service's directory, where there is one, the base
-- file and the environment's, where it is another than development.
abbrev pub files_in :
    Bool → Bool → Fallible String Entries → Fallible String Entries → List (Fallible String Entries)
files_in false with_env base env = []
files_in true false base env = base ∷ []
files_in true true base env = base ∷ env ∷ []

unfoldable pub load_files :
    List (Fallible String Entries) → List (Fallible String Entries) → Entries
load_files global service = load_from (load_from empty global) service

unfoldable pub set_nested_value : Entries → List String → String → Entries
set_nested_value es [] v = es
set_nested_value es (key ∷ []) v = put key (leaf (text v)) es
set_nested_value es (key ∷ next ∷ keys) v = elim (find key es) [
  | none ↦ put key (node (set_nested_value empty (next ∷ keys) v)) es
  | some held ↦ elim held [
    | leaf t ↦ es
    | node sub ↦ put key (node (set_nested_value sub (next ∷ keys) v)) es
  ]
]

-- `Load` of the environment's provider, on the keys and values of the variables with its prefix.
unfoldable pub load_env : Entries → List (List String × String) → Entries
load_env result [] = result
load_env result ((keys, value) ∷ rest) = load_env (set_nested_value result keys value) rest

-- `Load` of the environment's provider on `os.Environ()`. What package strings does is a parameter:
-- the cut of a variable at its first equality sign, of a prefix, the lower case, and the cut at double
-- underscores.
pub record Strings : Type 0 where
  pub split_variable : String → Option (String × String)
  pub trim_prefix : String → String → Option String
  pub to_lower : String → String
  pub split_key : String → List String

module _ (strings : Strings) where
  open strings use {split_variable, trim_prefix, to_lower, split_key}

  abbrev with_key :
      String → Option String → List (List String × String) → List (List String × String)
  with_key value none rest = rest
  with_key value (some key) rest = (split_key (to_lower key), value) ∷ rest

  abbrev with_variable :
      String → Option (String × String) → List (List String × String) → List (List String × String)
  with_variable prefix none rest = rest
  with_variable prefix (some (key, value)) rest = with_key value (trim_prefix prefix key) rest

  unfoldable pub variables : String → List String → List (List String × String)
  variables prefix [] = []
  variables prefix (env ∷ envs) = with_variable prefix (split_variable env) (variables prefix envs)

  unfoldable pub load_environ : String → List String → Entries
  load_environ prefix envs = load_env empty (variables prefix envs)

-- `NewEnvProvider`
abbrev pub env_prefix : String → String
env_prefix prefix = if str_eq prefix "" then "APP_" else prefix

-- `Load` of the default provider; nil is `none`.
abbrev pub load_default : Option Entries → Fallible String Entries
load_default none = ok empty
load_default (some es) = ok es

-- `getEnv`, on what the three variables hold; an empty one counts as missing.
unfoldable pub get_env : List String → String
get_env [] = "development"
get_env (env ∷ envs) = let later = get_env envs in if str_eq env "" then later else env

-- `GetString`, `GetInt` and `GetDuration`, on what `Get` finds, or `none` without a manager or a value.
unfoldable pub get_string : Option Value → String
get_string (some (leaf (text t))) = t
get_string _ = ""

unfoldable pub get_int : Option Value → ℤ
get_int (some (leaf (number n))) = n
get_int (some (leaf (float_number n))) = n
get_int _ = pos 0

abbrev or_zero : Option Duration → Duration
or_zero none = pos 0
or_zero (some d) = d

-- `parse` is time.ParseDuration.
unfoldable pub get_duration : (String → Option Duration) → Option Value → Duration
get_duration parse (some (leaf (duration d))) = d
get_duration parse (some (leaf (text t))) = or_zero (parse t)
get_duration parse _ = pos 0

-- `Watch`: whether it is active, and whether the call is refused.
unfoldable pub watch : Bool → Bool × Option String
watch true = (true, some "watch is already active")
watch false = (true, none)
