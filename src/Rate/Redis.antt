-- ===== src/Rate/Redis.antt =====
-- The Redis storage of the rate limiter, internal/pkg/rate/storage_redis.go, over the commands of
-- Redis.antt, and the token bucket that is a Lua script.
use Prim.Native.String.{◌++◌ as append}
use my_go.Common.{
  ℤ, pos, ◌/◌, ◌*◌, sub_ℕ, Time, Duration, second, String, Option, none, some, Bool, leb_ℤ,
  if◌then◌else◌, Fallible, ok, err, str_eq, ◌==◌, false,
}
use my_go.Redis.{Client, whole_seconds}
use my_go.Rate.Types.{FloatOps, State, Storage, Error, wraps_unavailable, other_error}

-- What encoding/json makes of a state, and of the bytes of one.
pub record StateCodec (F : Type 0) : Type 0 where
  pub marshal : State F → Fallible String String
  pub unmarshal : String → Fallible String (State F)

-- The errors of the codec are no errors of the package, and nothing tells them apart.
abbrev codec_failed : Error
codec_failed = other_error 0

-- `NewRedisStorage` and `makeKey`
abbrev pub prefix_or : String → String → String
prefix_or default prefix = if str_eq prefix "" then default else prefix

abbrev pub make_key : String → String → String
make_key prefix key = append prefix (append ":" key)

-- A day for a ttl that is not positive.
abbrev pub ttl_or_day : Duration → Duration
ttl_or_day ttl = if leb_ℤ ttl (pos 0) then pos (24 * 3600 * second) else ttl

abbrev unavailable_if : Option String → Option Error
unavailable_if none = none
unavailable_if (some e) = some wraps_unavailable

abbrev or_unavailable : {A : Type 0} → Fallible String A → Fallible Error A
or_unavailable (ok a) = ok a
or_unavailable (err e) = err wraps_unavailable

module _ {F D : Type 0} (client : Client D) (codec : StateCodec F) (prefix : String) where
  open codec use {marshal, unmarshal}

  abbrev decoded : Fallible String (State F) → Option (State F) × Option Error
  decoded (ok st) = (some st, none)
  decoded (err e) = (none, some codec_failed)

  abbrev read : Fallible String (Option String) → Option (State F) × Option Error
  read (err e) = (none, some wraps_unavailable)
  read (ok none) = (none, none)
  read (ok (some bytes)) = decoded (unmarshal bytes)

  unfoldable pub get : Time → String → D → Option (State F) × Option Error
  get now key d = read (client.get now (make_key prefix key) d)

  abbrev set_bytes : Time → String → Fallible String String → Duration → D → D × Option Error
  set_bytes now key (err e) ttl d = (d, some codec_failed)
  set_bytes now key (ok bytes) ttl d =
      let (d', x) = client.set now (make_key prefix key) bytes (ttl_or_day ttl) d in
      (d', unavailable_if x)

  unfoldable pub set : Time → String → State F → Duration → D → D × Option Error
  set now key st ttl d = set_bytes now key (marshal st) ttl d

  -- The script of `Increment`.
  abbrev first_count : ℤ → D × Option String → D × Fallible String ℤ
  first_count n (d, none) = (d, ok n)
  first_count n (d, some e) = (d, err e)

  abbrev next_count : Time → String → ℤ → D × Fallible String ℤ → D × Fallible String ℤ
  next_count now key seconds (d, ok n) = ((client.call_expire now key seconds d).0, ok n)
  next_count now key seconds (d, err e) = (d, err e)

  unfoldable pub increment_script : Time → String → ℤ → ℤ → D → D × Fallible String ℤ
  increment_script now key n seconds d = elim (client.call_get now key d) [
    | none ↦ first_count n (client.call_set_ex now key n seconds d)
    | some current ↦ next_count now key seconds (client.call_incrby now key n d)
  ]

  unfoldable pub increment : Time → String → ℤ → Duration → D → D × Fallible Error ℤ
  increment now key n ttl d =
      let seconds = whole_seconds (ttl_or_day ttl) in
      let (d', x) = client.run_script (increment_script now (make_key prefix key) n seconds) d in
      (d', or_unavailable x)

  unfoldable pub delete : String → D → D × Option Error
  delete key d = let (d', x) = client.del (make_key prefix key) d in (d', unavailable_if x)

  -- `Close` does nothing.
  unfoldable pub ping : D → Option Error
  ping d = unavailable_if (client.ping d)

  abbrev pub redis_storage : Storage F D
  redis_storage = record { get = get; set = set; increment = increment; delete = delete }

-- What the token bucket's script calls: a hash with two fields, of which either may be missing, and a
-- run of a script that answers two numbers.
pub record Hashes (F D : Type 0) : Type 0 where
  pub call_hmget : Time → String → D → Option F × Option F
  pub call_hmset : Time → String → F → ℤ → D → D
  pub call_expire : Time → String → ℤ → D → D
  pub run_pair : (D → D × Fallible String (ℤ × ℤ)) → D → D × Fallible String (ℤ × ℤ)

-- `t.Unix()`: 62135596800 seconds lie between the zero time and 1970.
abbrev pub unix : Time → ℤ
unix t = sub_ℕ (t / second) 62135596800

module _ {D : Type 0} (fl : FloatOps) (hashes : Hashes fl.Float D) where
  open fl use {Float, of_int, add, sub, mul, div, min, le, floor_int}

  -- From the tokens and the time of the last update on.
  abbrev take_tokens :
      Time → String → ℤ → ℤ → ℤ → ℤ → ℤ → ℤ → Float → Float → D → D × Fallible String (ℤ × ℤ)
  take_tokens at key now n rate burst interval ttl held last d =
      let elapsed = sub (of_int now) last in
      let to_add = div (mul elapsed (of_int rate)) (of_int interval) in
      let tokens = min (add held to_add) (of_int burst) in
      let left = sub tokens (of_int n) in
      if le (of_int n) tokens
      then (
        hashes.call_expire at key ttl (hashes.call_hmset at key left now d),
        ok (pos 1, floor_int left),
      )
      else (d, ok (pos 0, floor_int tokens))

  -- A bucket without tokens is new; without a last update alone, the script fails on its arithmetic.
  abbrev from_fields :
      Time
      → String
      → ℤ
      → ℤ
      → ℤ
      → ℤ
      → ℤ
      → ℤ
      → Option Float × Option Float
      → D
      → D × Fallible String (ℤ × ℤ)
  from_fields at key now n rate burst interval ttl (none, last) d =
      take_tokens at key now n rate burst interval ttl (of_int burst) (of_int now) d
  from_fields at key now n rate burst interval ttl (some held, some last) d =
      take_tokens at key now n rate burst interval ttl held last d
  from_fields at key now n rate burst interval ttl (some held, none) d =
      (d, err "attempt to perform arithmetic on a nil value")

  unfoldable pub allow_n_script :
      Time → String → ℤ → ℤ → ℤ → ℤ → ℤ → ℤ → D → D × Fallible String (ℤ × ℤ)
  allow_n_script at key now n rate burst interval ttl d =
      from_fields at key now n rate burst interval ttl (hashes.call_hmget at key d) d

  abbrev allowed_of : Fallible String (ℤ × ℤ) → Fallible Error (Bool × ℤ)
  allowed_of (ok (flag, remaining)) = ok (is_one flag, remaining)
    where
      is_one : ℤ → Bool
      is_one (pos n) = n == 1
      is_one _ = false
  allowed_of (err e) = err wraps_unavailable

  -- `TokenBucketRedisStorage.AllowN`; `clock` is what the caller's clock shows, `at` the server's.
  unfoldable pub allow_n :
      Time
      → Time
      → String
      → String
      → ℤ
      → ℤ
      → ℤ
      → Duration
      → Duration
      → D
      → D × Fallible Error (Bool × ℤ)
  allow_n at clock prefix key n rate burst interval ttl d =
      let script =
        allow_n_script at (make_key prefix key) (unix clock) n rate burst (whole_seconds interval)
          (whole_seconds (ttl_or_day ttl)) in
      let (d', x) = hashes.run_pair script d in (d', allowed_of x)
