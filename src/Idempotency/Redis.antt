-- ===== src/Idempotency/Redis.antt =====
-- The Redis storage, internal/pkg/idempotency/storage_redis.go, and the key generators of keygen.go.
use Prim.Native.String.{◌++◌ as append}
use my_go.Common.{
  ℕ, Time, Duration, String, List, [], Option, none, some, Bool, Fallible, ok, err, str_eq,
  if◌then◌else◌,
}
use my_go.Redis.{Client}
use my_go.Idempotency.{Record, Status, processing, completed, failed, Storage}

-- What encoding/json makes of a record, and of the bytes of one.
pub record RecordCodec : Type 0 where
  pub marshal : Record → Fallible String String
  pub unmarshal : String → Fallible String Record

-- `NewRedisStorage` and `makeKey`
abbrev pub prefix_or_default : String → String
prefix_or_default prefix = if str_eq prefix "" then "idempotency" else prefix

abbrev pub make_key : String → String → String
make_key prefix key = append prefix (append ":" key)

-- The record that each method makes, where its two clock readings agree.
abbrev pub record_of : Time → String → Duration → Status → List ℕ → String → Record
record_of now key ttl status result error_msg = record {
  key = key;
  status = status;
  result = result;
  error_msg = error_msg;
  created_at = now;
  updated_at = now;
  ttl = ttl;
}

abbrev pub wrapped : {A : Type 0} → String → Fallible String A → Fallible String A
wrapped message (ok a) = ok a
wrapped message (err e) = err (append message e)

abbrev pub wrapped_error : String → Option String → Option String
wrapped_error message none = none
wrapped_error message (some e) = some (append message e)

module _ {D : Type 0} (client : Client D) (codec : RecordCodec) (prefix : String) where
  open codec use {marshal, unmarshal}

  abbrev decoded : Fallible String Record → Fallible String (Option Record)
  decoded (ok r) = ok (some r)
  decoded (err e) = err (append "failed to unmarshal record: " e)

  abbrev read : Fallible String (Option String) → Fallible String (Option Record)
  read (err e) = err (append "redis get failed: " e)
  read (ok none) = ok none
  read (ok (some bytes)) = decoded (unmarshal bytes)

  unfoldable pub load : Time → String → D → Fallible String (Option Record)
  load now key d = read (client.get now (make_key prefix key) d)

  abbrev pub mark_bytes :
      Time → String → Duration → Fallible String String → D → D × Fallible String Bool
  mark_bytes now key ttl (err e) d = (d, err (append "failed to marshal record: " e))
  mark_bytes now key ttl (ok bytes) d =
      let (d', x) = client.set_nx now (make_key prefix key) bytes ttl d in
      (d', wrapped "redis setnx failed: " x)

  unfoldable pub try_mark_processing : Time → String → Duration → D → D × Fallible String Bool
  try_mark_processing now key ttl d =
      mark_bytes now key ttl (marshal (record_of now key ttl processing [] "")) d

  abbrev pub set_bytes : Time → String → Duration → Fallible String String → D → D × Option String
  set_bytes now key ttl (err e) d = (d, some (append "failed to marshal record: " e))
  set_bytes now key ttl (ok bytes) d =
      let (d', x) = client.set now (make_key prefix key) bytes ttl d in
      (d', wrapped_error "redis set failed: " x)

  unfoldable pub save_result : Time → String → List ℕ → Duration → D → D × Option String
  save_result now key result ttl d =
      set_bytes now key ttl (marshal (record_of now key ttl completed result "")) d

  unfoldable pub save_error : Time → String → String → Duration → D → D × Option String
  save_error now key message ttl d =
      set_bytes now key ttl (marshal (record_of now key ttl failed [] message)) d

  abbrev pub redis_storage : Storage D
  redis_storage = record {
    load = load;
    try_mark_processing = try_mark_processing;
    save_result = save_result;
    save_error = save_error;
  }

-- The hash of an input: encoding/json writes it, and SHA-256 in hexadecimal digits is a parameter.
module _ {I : Type 0} (marshal : I → Fallible String String) (digest : String → String) where
  abbrev hashed : String → Fallible String String → Fallible String String
  hashed prefix (err e) =
      err (append "idempotency: key generation failed: failed to marshal input: " e)
  hashed prefix (ok bytes) =
      ok (if str_eq prefix "" then digest bytes else append prefix (append ":" (digest bytes)))

  -- `hashKeyGenerator.Generate`
  unfoldable pub generate : String → I → Fallible String String
  generate prefix input = hashed prefix (marshal input)
