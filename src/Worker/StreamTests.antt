-- ===== src/Worker/StreamTests.antt =====
-- A witness: a worker on a Redis stream in memory, whose handler panics each time.
use Prim.Native.String.{[] as blank, ◌∷◌ as mark}
use my_go.Common.{
  ℕ, zero, suc, ◌+◌, ◌*◌, ◌%◌, ◌/◌, ◌<◌, ◌≡◌, refl, ap, ℤ, pos, negsuc, String, List, [], ◌∷◌, ◌++◌,
  length, Option, none, some, Bool, true, false, if◌then◌else◌, Fallible, ok, StringMap, eq_iff,
  str_eq, arith, ◌==◌,
}
use my_go.Worker.{Context, panicked, Handler, default_config}
use my_go.Worker.Middlewares.{recovery_middleware}
use my_go.Worker.Processing.{Worker}
use my_go.Worker.Redis.{Formats, Client, RedisProviderConfig, Message}
use my_go.Worker.Streams.Reading.{IsFresh}
use my_go.Worker.Streams.{StreamLaws}

-- A number in strokes.
unfoldable strokes : ℕ → String
strokes zero = blank
strokes (suc n) = mark "I" (strokes n)

unfoldable count_strokes : String → ℕ
count_strokes blank = 0
count_strokes (mark c s) = suc (count_strokes s)

-- The even numbers of strokes are the natural numbers.
abbrev folded : ℤ → ℕ
folded (pos n) = n * 2
folded (negsuc n) = n * 2 + 1

abbrev unfolded : ℕ → ℤ
unfolded m = if m % 2 == 0 then pos (m / 2) else negsuc (m / 2)

abbrev stroke_formats : Formats
stroke_formats = record {
  bytes_to_string = λ b. "";
  string_to_bytes = λ s. [];
  format_time = λ t. "1970";
  parse_time = λ s. some 0;
  itoa = λ z. strokes (folded z);
  atoi = λ s. some (unfolded (count_strokes s));
  format_duration = λ d. "0s";
  parse_duration = λ s. some (pos 0);
  marshal = λ m. some "{type:mail}";
  unmarshal = λ s. some (("type", "mail") ∷ []);
}

record Stream : Type 0 where
  waiting : List Message
  pending : List String
  dead : List (StringMap String)

abbrev without_id : String → List String → List String
without_id id [] = []
without_id id (x ∷ xs) = if str_eq x id then xs else x ∷ without_id id xs

abbrev without_message : String → List Message → List Message
without_message id [] = []
without_message id (m ∷ ms) =
    let rest = without_message id ms in if str_eq m.id id then rest else m ∷ rest

-- An id that one message at most cannot have.
abbrev free_id : List Message → String
free_id [] = "a"
free_id (m ∷ ms) = if str_eq m.id "a" then "b" else "a"

abbrev read_head : List Message → Stream → Stream × Fallible String (Option (List Message))
read_head [] s = (s, ok none)
read_head (m ∷ ms) s = (record s { waiting = ms; pending = m.id ∷ s.pending }, ok (some (m ∷ [])))

abbrev added : Bool → StringMap String → Stream → Stream
added true values s = record s {
  waiting = s.waiting ++ (record { id = free_id s.waiting; values = values } ∷ []);
}
added false values s = record s { dead = s.dead ++ (values ∷ []) }

abbrev stream_client : Client Stream
stream_client = record {
  xgroup_create = λ stream group s. (s, none);
  xread_group = λ cfg s. read_head s.waiting s;
  xauto_claim = λ cfg s. (s, ok []);
  xack = λ stream group id s. (record s { pending = without_id id s.pending }, none);
  xdel = λ stream id s. (record s { waiting = without_message id s.waiting }, none);
  xadd = λ stream n values s. (added (str_eq stream "mail") values s, ok (free_id s.waiting));
}

abbrev stream_config : RedisProviderConfig
stream_config = record {
  stream = "mail";
  group = "workers";
  consumer = "one";
  count = pos 1;
  block = pos 1000000000;
  claim_min_idle = pos 300000000000;
  claim_count = pos 10;
  enable_auto_claim = true;
  dlq_stream = "mail:dlq";
  max_len = pos 2;
}

without_id-only : (id : String) (ids : List String) → ids ≡ id ∷ [] → without_id id ids ≡ []
without_id-only id ids e = rw e (ground (arith, eq_iff id id))

without_message-fresh :
    (id : String) (ms : List Message) → IsFresh id ms → without_message id ms ≡ ms
without_message-fresh id [] f = refl
without_message-fresh id (m ∷ ms) (h, f) =
    rw h (ap (λ rest. m ∷ rest) (without_message-fresh id ms f))

other_id :
    (id : String) (here : Bool)
    → str_eq id "a" ≡ here
    → str_eq id (if here then "b" else "a") ≡ false
other_id id true e = rw ((eq_iff id "a").0 e) refl
other_id id false e = e

free_id-IsFresh : (ms : List Message) → length ms < 2 → IsFresh (free_id ms) ms
free_id-IsFresh [] h = tt
free_id-IsFresh (m ∷ []) h = (other_id m.id (str_eq m.id "a") refl, tt)
free_id-IsFresh (m ∷ x ∷ ms) h = absurd (omega (arith, h))

read_head-none :
    (ms : List Message) (s : Stream)
    → ms ≡ []
    → s.waiting ≡ []
    → ((read_head ms s).1 ≡ ok none)
      × ((read_head ms s).0.waiting ≡ [])
      × ((read_head ms s).0.pending ≡ s.pending)
read_head-none [] s e w = (refl, w, refl)
read_head-none (m ∷ ms) s e w = absurd (ground arith)

read_head-next :
    (ws : List Message) (s : Stream) (m : Message) (ms : List Message)
    → ws ≡ m ∷ ms
    → ((read_head ws s).1 ≡ ok (some (m ∷ [])))
      × ((read_head ws s).0.waiting ≡ ms)
      × ((read_head ws s).0.pending ≡ m.id ∷ s.pending)
read_head-next ws s m ms e = rw e (refl, refl, refl)

abbrev stream_laws : StreamLaws stream_client stream_config
stream_laws = record {
  waiting = λ s. s.waiting;
  pending = λ s. s.pending;
  claim_none = λ s p. (refl, refl, p);
  read_none = λ s e. read_head-none s.waiting s e e;
  read_next = λ s m ms one e. read_head-next s.waiting s m ms e;
  xack_only = λ id s p. (refl, refl, without_id-only id s.pending p);
  xdel_other = λ id s f. (without_message-fresh id s.waiting f, refl);
  xadd_last = λ values s p h. (free_id s.waiting, free_id-IsFresh s.waiting h, refl, p);
  xadd_other = λ stream values s e. rw e (refl, refl);
}

-- The handler panics each time.
abbrev explode : Handler Stream
explode ctx task s = (s, panicked "boom")

abbrev safe_worker : Worker Stream
safe_worker = record {
  registry = ("mail", explode) ∷ [];
  middlewares = recovery_middleware ∷ [];
  config = default_config;
}

abbrev mail_message : String → ℤ → Message
mail_message id retry = record {
  id = id;
  values =
      ("type", "mail")
      ∷ ("retry", strokes (folded retry))
      ∷ ("max_retry", strokes (folded (pos 3)))
      ∷ [];
}

abbrev two_mails : Stream
two_mails = record {
  waiting = mail_message "1-0" (pos 1) ∷ mail_message "2-0" (pos 3) ∷ [];
  pending = [];
  dead = [];
}

abbrev plain : Context
plain = record { deadline = none; correlation_id = none }
