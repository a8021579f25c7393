-- ===== src/Worker/Redis.antt =====
-- The provider on Redis streams, provider_redis.go. The client's commands and the formats of package
-- time, strconv and encoding/json are parameters.
use my_go.Common.{
  ℕ, ℤ, pos, ltb_ℤ, Time, Duration, String, List, [], ◌∷◌, Option, none, some, Bool, true, not,
  ◌&&◌, ◌||◌, if◌then◌else◌, Fallible, ok, err, StringMap, lookup, insert, after, is_zero_time,
  str_eq, second, ◌*◌,
}
use my_go.Worker.{Task, Provider}
use Prim.Native.String.{◌++◌ as append}

pub record RedisProviderConfig : Type 0 where
  pub stream : String
  pub group : String
  pub consumer : String
  pub count : ℤ
  pub block : Duration
  pub claim_min_idle : Duration
  pub claim_count : ℤ
  pub enable_auto_claim : Bool
  pub dlq_stream : String
  pub max_len : ℤ

unfoldable pub default_redis_provider_config : String → String → String → RedisProviderConfig
default_redis_provider_config stream group consumer = record {
  stream = stream;
  group = group;
  consumer = consumer;
  count = pos 1;
  block = pos second;
  claim_min_idle = pos (300 * second);
  claim_count = pos 10;
  enable_auto_claim = true;
  dlq_stream = append stream ":dlq";
  max_len = pos 10000;
}

pub record Message : Type 0 where
  pub id : String
  pub values : StringMap String

-- The commands of the Redis client, on states in `S`. `xread_group` returns the messages of the
-- stream, or `ok none` for the client's `Nil`.
pub record Client (S : Type 0) : Type 0 where
  pub xgroup_create : String → String → S → S × Option String
  pub xread_group : RedisProviderConfig → S → S × Fallible String (Option (List Message))
  pub xauto_claim : RedisProviderConfig → S → S × Fallible String (List Message)
  pub xack : String → String → String → S → S × Option String
  pub xdel : String → String → S → S × Option String
  pub xadd : String → ℤ → StringMap String → S → S × Fallible String String

-- Printing and reading; reading may fail. Bytes are what a Go string holds.
pub record Formats : Type 0 where
  pub bytes_to_string : List ℕ → String
  pub string_to_bytes : String → List ℕ
  pub format_time : Time → String
  pub parse_time : String → Option Time
  pub itoa : ℤ → String
  pub atoi : String → Option ℤ
  pub format_duration : Duration → String
  pub parse_duration : String → Option Duration
  pub marshal : StringMap String → Option String
  pub unmarshal : String → Option (StringMap String)

-- `if v, ok := …; ok { … }` with a default.
abbrev pub parsed : {A : Type 0} → (String → Option A) → A → Option String → A
parsed read default none = default
parsed read default (some text) = elim (read text) [ none ↦ default | some a ↦ a ]

-- `for key, val := range m { into[key] = val }` for the keys that a test takes.
unfoldable pub insert_where :
    (String → Bool) → StringMap String → StringMap String → StringMap String
insert_where test [] into = into
insert_where test ((key, val) ∷ rest) into =
    let others = insert_where test rest into in if test key then insert key val others else others

abbrev pub is_field : String → Bool
is_field key =
    str_eq key "payload"
    || (str_eq key "created_at"
        || (str_eq key "retry"
            || (str_eq key "max_retry" || (str_eq key "timeout" || str_eq key "metadata"))))

abbrev pub is_extra : String → Bool
is_extra key = not (is_field key)

abbrev pub with_metadata : Option String → StringMap String → StringMap String
with_metadata none values = values
with_metadata (some text) values = insert "metadata" text values

abbrev pub all_keys : String → Bool
all_keys key = true

module _ (formats : Formats) where
  open formats use {
    bytes_to_string, string_to_bytes, format_time, parse_time, itoa, atoi, format_duration,
    parse_duration, marshal, unmarshal,
  }

  unfoldable pub message_to_task : Message → Task
  message_to_task msg = record {
    id = msg.id;
    payload = parsed (λ s. some (string_to_bytes s)) [] (lookup "payload" msg.values);
    metadata =
        insert_where is_extra msg.values (parsed unmarshal [] (lookup "metadata" msg.values));
    retry = parsed atoi (pos 0) (lookup "retry" msg.values);
    max_retry = parsed atoi (pos 0) (lookup "max_retry" msg.values);
    timeout = parsed parse_duration (pos 0) (lookup "timeout" msg.values);
    created_at = parsed parse_time 0 (lookup "created_at" msg.values);
    scheduled_at = 0;
  }

  abbrev pub base_values : Task → StringMap String
  base_values task = insert "max_retry" (itoa task.max_retry) (
      insert "retry" (itoa task.retry) (
        insert "created_at" (format_time task.created_at)
          (insert "payload" (bytes_to_string task.payload) [])))

  abbrev pub timed_values : Task → StringMap String
  timed_values task =
      if ltb_ℤ (pos 0) task.timeout
      then insert "timeout" (format_duration task.timeout) (base_values task)
      else base_values task

  -- With no metadata, neither the JSON text nor the single fields are there.
  abbrev pub add_metadata : StringMap String → StringMap String → StringMap String
  add_metadata [] values = values
  add_metadata (entry ∷ rest) values =
      insert_where all_keys (entry ∷ rest) (with_metadata (marshal (entry ∷ rest)) values)

  unfoldable pub task_to_values : Task → StringMap String
  task_to_values task = add_metadata task.metadata (timed_values task)

  module _ {S : Type 0} (client : Client S) (config : RedisProviderConfig) where
    open client use {xgroup_create, xread_group, xauto_claim, xack, xdel, xadd}

    -- A group that exists already is no error.
    abbrev pub unless_busy : Option String → Option String
    unless_busy none = none
    unless_busy (some e) =
        if str_eq e "BUSYGROUP Consumer Group name already exists" then none else some e

    unfoldable pub ensure_group : S → S × Option String
    ensure_group s = let (s', e) = xgroup_create config.stream config.group s in (s', unless_busy e)

    unfoldable pub ensure_dlq_group : S → S × Option String
    ensure_dlq_group s =
        let (s', e) = xgroup_create config.dlq_stream config.group s in (s', unless_busy e)

    -- The first of the messages; the others are dropped.
    abbrev pub first_task : List Message → Option Task
    first_task [] = none
    first_task (msg ∷ rest) = some (message_to_task msg)

    -- The error of a claim is only logged.
    unfoldable pub claim_stale_message : S → S × Option Task
    claim_stale_message s =
        let (s', got) = xauto_claim config s in
        (s', elim got [ err e ↦ none | ok msgs ↦ first_task msgs ])

    abbrev pub read_task : Fallible String (Option (List Message)) → Fallible String (Option Task)
    read_task (err e) = err "failed to read from stream"
    read_task (ok none) = ok none
    read_task (ok (some msgs)) = ok (first_task msgs)

    abbrev pub read_new : S → S × Fallible String (Option Task)
    read_new s = let (s', got) = xread_group config s in (s', read_task got)

    abbrev pub unless_claimed : S × Option Task → S × Fallible String (Option Task)
    unless_claimed (s, some task) = (s, ok (some task))
    unless_claimed (s, none) = read_new s

    unfoldable pub fetch : S → S × Fallible String (Option Task)
    fetch s =
        let claimed = unless_claimed (claim_stale_message s) in
        if config.enable_auto_claim then claimed else read_new s

    abbrev pub error_of : {A : Type 0} → Fallible String A → Option String
    error_of (ok a) = none
    error_of (err e) = some e

    abbrev pub after_xack : Task → S × Option String → S × Option String
    after_xack task (s, some e) = (s, some "failed to ack message")
    after_xack task (s, none) = ((xdel config.stream task.id s).0, none)

    unfoldable pub ack : Task → S → S × Option String
    ack task s = after_xack task (xack config.stream config.group task.id s)

    unfoldable pub requeue : Time → Task → S → S × Option String
    requeue now task s =
        let later = not (is_zero_time task.scheduled_at) && after task.scheduled_at now in
        let values = task_to_values task in
        let delayed =
          if later then insert "scheduled_at" (format_time task.scheduled_at) values else values in
        let (s', r) = xadd config.stream config.max_len delayed s in (s', error_of r)

    unfoldable pub send_to_dlq : Time → Task → S → S × Option String
    send_to_dlq now task s =
        let values = insert "dlq_timestamp" (format_time now) (task_to_values task) in
        let (s', r) = xadd config.dlq_stream config.max_len values s in (s', error_of r)

    -- The errors of the acknowledgement and of the deletion are only logged.
    unfoldable pub nack : Time → Task → Bool → S → S × Option String
    nack now task again s =
        let s1 = (xack config.stream config.group task.id s).0 in
        let s2 = (xdel config.stream task.id s1).0 in
        if again then requeue now task s2 else send_to_dlq now task s2

    unfoldable pub enqueue_task : Time → Task → S → S × Fallible String String
    enqueue_task now task s =
        let stamped =
          if is_zero_time task.created_at then record task { created_at = now } else task in
        xadd config.stream config.max_len (task_to_values stamped) s

    -- The client is shared, so `Close` leaves it open.
    abbrev pub redis_provider : Provider S
    redis_provider = record { fetch = fetch; ack = ack; nack = nack; close = λ s. (s, none) }
