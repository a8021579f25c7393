-- ===== src/Worker/Streams.antt =====
-- The loop of worker.go on the Redis streams of provider_redis.go.
pub mod Reading
use my_go.Common.{
  ℕ, zero, suc, ◌+◌, ◌≤◌, ◌<◌, ◌≡◌, refl, ap, ◌∙◌, sym, subst, ℤ, pos, pos_part, IsInt64, String,
  List, [], ◌∷◌, ◌++◌, map, length, length-append, Option, none, some, Bool, true, false,
  Bool-cases, inl, inr, ◌⊎◌, if◌then◌else◌, Fallible, ok, Time, StringMap, insert, lookup-insert,
  eq_iff, str_eq, arith,
}
use my_go.Worker.{Task}
use my_go.Worker.Processing.{Worker}
use my_go.Worker.Draining.{HasInts, SameCounters, QueueLaws}
use my_go.Worker.Redis.{
  Formats, Client, RedisProviderConfig, Message, parsed, insert_where, is_extra, timed_values,
  with_metadata, read_new, unless_claimed, message_to_task, task_to_values, redis_provider, fetch,
  ack, nack, requeue, send_to_dlq, claim_stale_message,
}
use my_go.Worker.RoundTrip.{AllExtra, fields, lookup-field, lookup-fields-known}
use my_go.Worker.Streams.Reading.{
  IsFresh, AllDistinct, IsFresh-snoc, AllDistinct-snoc, FormatLaws, first_or, rest_of, IsGood,
  AllGood, AllGood-snoc, delayed, read_again,
}

-- What Redis does with one stream that one consumer of a group reads: the messages that no consumer
-- was given yet, and the ids of those that were given and not acknowledged. No command fails.
pub record StreamLaws {S : Type 0} (client : Client S) (config : RedisProviderConfig) : Type 1 where
  pub waiting : S → List Message
  pub pending : S → List String
  pub claim_none :
      (s : S)
      → pending s ≡ []
      → ((client.xauto_claim config s).1 ≡ ok [])
        × (waiting (client.xauto_claim config s).0 ≡ waiting s)
        × (pending (client.xauto_claim config s).0 ≡ [])
  pub read_none :
      (s : S)
      → waiting s ≡ []
      → ((client.xread_group config s).1 ≡ ok none)
        × (waiting (client.xread_group config s).0 ≡ [])
        × (pending (client.xread_group config s).0 ≡ pending s)
  -- Where one message is asked for.
  pub read_next :
      (s : S) (m : Message) (ms : List Message)
      → config.count ≡ pos 1
      → waiting s ≡ m ∷ ms
      → ((client.xread_group config s).1 ≡ ok (some (m ∷ [])))
        × (waiting (client.xread_group config s).0 ≡ ms)
        × (pending (client.xread_group config s).0 ≡ m.id ∷ pending s)
  pub xack_only :
      (id : String) (s : S)
      → pending s ≡ id ∷ []
      → ((client.xack config.stream config.group id s).1 ≡ none)
        × (waiting (client.xack config.stream config.group id s).0 ≡ waiting s)
        × (pending (client.xack config.stream config.group id s).0 ≡ [])
  pub xdel_other :
      (id : String) (s : S)
      → IsFresh id (waiting s)
      → (waiting (client.xdel config.stream id s).0 ≡ waiting s)
        × (pending (client.xdel config.stream id s).0 ≡ pending s)
  -- A stream is trimmed to its length limit only where there are more entries.
  pub xadd_last :
      (values : StringMap String) (s : S)
      → pending s ≡ []
      → length (waiting s) < pos_part config.max_len
      → (id : String) × IsFresh id (waiting s)
        × (waiting (client.xadd config.stream config.max_len values s).0
            ≡ waiting s ++ (record { id = id; values = values } ∷ []))
        × (pending (client.xadd config.stream config.max_len values s).0 ≡ [])
  pub xadd_other :
      (stream : String) (values : StringMap String) (s : S)
      → str_eq stream config.stream ≡ false
      → (waiting (client.xadd stream config.max_len values s).0 ≡ waiting s)
        × (pending (client.xadd stream config.max_len values s).0 ≡ pending s)

module _ (formats : Formats) (printing : FormatLaws formats) {S : Type 0} (client : Client S)
    (config : RedisProviderConfig) (redis : StreamLaws client config) where
  open redis use {
    waiting, pending, claim_none, read_none, read_next, xack_only, xdel_other, xadd_last,
    xadd_other,
  }

  abbrev tasks_of : List Message → List Task
  tasks_of ms = map (message_to_task formats) ms

  -- What is sound of the waiting messages, where there is room for `n` others.
  abbrev pub HasRoom : ℕ → List Message → Type 0
  HasRoom n ms =
      AllDistinct ms × AllGood formats printing ms × (length ms + n ≤ pos_part config.max_len)

  abbrev pub IsIdle : S → Type 0
  IsIdle s = (pending s ≡ []) × HasRoom 0 (waiting s)

  abbrev pub IsBusy : Task → S → Type 0
  IsBusy t s = (pending s ≡ t.id ∷ []) × IsFresh t.id (waiting s) × IsGood t × HasRoom 1 (waiting s)

  HasRoom-less : (ms : List Message) → HasRoom 1 ms → HasRoom 0 ms
  HasRoom-less ms (d, g, h) = (d, g, omega (arith, h))

  claim_stale_message-none :
      (s : S)
      → pending s ≡ []
      → claim_stale_message formats client config s ≡ ((client.xauto_claim config s).0, none)
  unfolding claim_stale_message
  claim_stale_message-none s p = rw (claim_stale_message, (claim_none s p).0) refl

  -- Where nothing is pending, `Fetch` claims nothing, if it claims at all, and reads the stream.
  fetch-read_if :
      (auto_claim : Bool) (s : S)
      → pending s ≡ []
      → (s1 : S) × (waiting s1 ≡ waiting s)
        × (pending s1 ≡ [])
        × ((if auto_claim
              then unless_claimed formats client config
                  (claim_stale_message formats client config s)
              else read_new formats client config s)
            ≡ read_new formats client config s1)
  fetch-read_if true s p =
      let (got, w, q) = claim_none s p in
      ((client.xauto_claim config s).0, w, q, rw (claim_stale_message-none s p) refl)
  fetch-read_if false s p = (s, refl, p, refl)

  fetch-read :
      (s : S)
      → pending s ≡ []
      → (s1 : S) × (waiting s1 ≡ waiting s)
        × (pending s1 ≡ [])
        × (fetch formats client config s ≡ read_new formats client config s1)
  unfolding fetch
  fetch-read s p = fetch-read_if config.enable_auto_claim s p

  read_new-none :
      (s : S)
      → waiting s ≡ []
      → pending s ≡ []
      → let r = read_new formats client config s in
        (r.1 ≡ ok none) × (waiting r.0 ≡ []) × (pending r.0 ≡ [])
  read_new-none s w p = let (got, w', p') = read_none s w in (rw got refl, w', p' ∙ p)

  read_new-next :
      (s : S) (m : Message) (ms : List Message)
      → config.count ≡ pos 1
      → waiting s ≡ m ∷ ms
      → pending s ≡ []
      → let r = read_new formats client config s in
        (r.1 ≡ ok (some (message_to_task formats m)))
        × (waiting r.0 ≡ ms)
        × (pending r.0 ≡ m.id ∷ [])
  read_new-next s m ms one w p =
      let (got, w', p') = read_next s m ms one w in (rw got refl, w', p' ∙ ap (λ ids. m.id ∷ ids) p)

  -- The acknowledged message is gone, and the others are there.
  settled :
      (t : Task) (s : S)
      → IsBusy t s
      → let s1 = (client.xack config.stream config.group t.id s).0 in
        let s2 = (client.xdel config.stream t.id s1).0 in
        (waiting s2 ≡ waiting s) × (pending s2 ≡ [])
  settled t s (p, f, g, r) =
      let (none_left, w, q) = xack_only t.id s p in
      let s1 = (client.xack config.stream config.group t.id s).0 in
      let (w2, q2) = xdel_other t.id s1 (subst (IsFresh t.id) (sym w) f) in (w2 ∙ w, q2 ∙ q)

  Idle-same :
      (s s' : S) → HasRoom 1 (waiting s) → waiting s' ≡ waiting s → pending s' ≡ [] → IsIdle s'
  Idle-same s s' r w p = (p, subst (HasRoom 0) (sym w) (HasRoom-less (waiting s) r))

  ack-settles :
      (t : Task) (s : S)
      → IsBusy t s
      → (waiting (ack formats client config t s).0 ≡ waiting s)
        × (pending (ack formats client config t s).0 ≡ [])
  unfolding ack
  ack-settles t s b = rw (ack, (xack_only t.id s b.0).0) (settled t s b)

  nack-settles :
      (now : Time) (t : Task) (s : S)
      → str_eq config.dlq_stream config.stream ≡ false
      → IsBusy t s
      → let s' = (nack formats client config now t false s).0 in
        (waiting s' ≡ waiting s) × (pending s' ≡ [])
  unfolding nack send_to_dlq
  nack-settles now t s other b =
      let (w, p) = settled t s b in
      let (w2, p2) = xadd_other config.dlq_stream _ _ other in (w2 ∙ w, p2 ∙ p)

  tasks_of-snoc :
      (ms : List Message) (m : Message)
      → tasks_of (ms ++ (m ∷ [])) ≡ tasks_of ms ++ (message_to_task formats m ∷ [])
  tasks_of-snoc [] m = refl
  tasks_of-snoc (x ∷ ms) m = ap (λ ts. message_to_task formats x ∷ ts) (tasks_of-snoc ms m)

  -- Stored again as `u`, a task waits behind the others with the counters of `u`.
  abbrev StoredAgain : Task → List Message → S → Type 0
  StoredAgain u ms s' =
      IsIdle s'
      × ((v : Task) × SameCounters u v × (tasks_of (waiting s') ≡ tasks_of ms ++ (v ∷ [])))

  StoredAgain-xadd :
      (later : Bool) (text : String) (u : Task) (s : S)
      → IsGood u
      → pending s ≡ []
      → HasRoom 1 (waiting s)
      → StoredAgain u
          (waiting s)
          (client.xadd config.stream config.max_len (delayed formats printing later text u) s).0
  StoredAgain-xadd later text u s g p (d, all, h) =
      let values = delayed formats printing later text u in
      let (id, fresh, w, q) = xadd_last values s p (omega (arith, h)) in
      let m : Message = record { id = id; values = values } in
      let (same, good) = read_again formats printing later text id u g in
      (
        (
          q,
          subst (HasRoom 0) (sym w) (
            AllDistinct-snoc (waiting s) m d fresh,
            AllGood-snoc formats printing (waiting s) m all good,
            omega (arith, h, length-append (waiting s) (m ∷ [])),
          ),
        ),
        (message_to_task formats m, same, ap tasks_of w ∙ tasks_of-snoc (waiting s) m),
      )

  StoredAgain-requeue :
      (now : Time) (u : Task) (s : S)
      → IsGood u
      → pending s ≡ []
      → HasRoom 1 (waiting s)
      → StoredAgain u (waiting s) (requeue formats client config now u s).0
  unfolding requeue
  StoredAgain-requeue now u s g p r = StoredAgain-xadd _ _ u s g p r

  StoredAgain-nack :
      (now : Time) (t u : Task) (s : S)
      → IsBusy t s
      → u.id ≡ t.id
      → u.metadata ≡ t.metadata
      → HasInts u
      → StoredAgain u (waiting s) (nack formats client config now u true s).0
  unfolding nack
  StoredAgain-nack now t u s (p, f, (ints, extra), r) i m h =
      let b : IsBusy u s = (
        p ∙ ap (λ id. id ∷ []) (sym i),
        subst (λ id. IsFresh id (waiting s)) (sym i) f,
        (h, subst AllExtra (sym m) extra),
        r,
      ) in
      let (w, q) = settled u s b in
      subst (λ ms. StoredAgain u ms (nack formats client config now u true s).0) w
        (StoredAgain-requeue now u _ b.2 q (subst (HasRoom 1) (sym w) r))

  message-cases :
      (ms : List Message) → (ms ≡ []) ⊎ ((m : Message) × (rest : List Message) × (ms ≡ m ∷ rest))
  message-cases [] = inl refl
  message-cases (m ∷ rest) = inr (m, rest, refl)

  -- A pass that finds nothing.
  fetch-none :
      (s : S)
      → IsIdle s
      → tasks_of (waiting s) ≡ []
      → let r = fetch formats client config s in
        (r.1 ≡ ok none) × (tasks_of (waiting r.0) ≡ []) × IsIdle r.0
  fetch-none s (p, room) e = elim (message-cases (waiting s)) [
    | inl none_there ↦
        let (s1, w, p1, same) = fetch-read s p in
        let (got, w2, p2) = read_new-none s1 (w ∙ none_there) p1 in
        rw same (got, ap tasks_of w2, (p2, subst (HasRoom 0) (none_there ∙ sym w2) room))
    | inr (m, rest, some_there) ↦ absurd (ground (arith, ap tasks_of some_there))
  ]

  -- What `Fetch` does to a stream with a message at its head.
  abbrev Fetched : Task → List Task → S × Fallible String (Option Task) → Type 0
  Fetched t ts (s', got) = (got ≡ ok (some t)) × (tasks_of (waiting s') ≡ ts) × IsBusy t s'

  fetch-first :
      (s : S) (m : Message) (rest : List Message)
      → config.count ≡ pos 1
      → IsIdle s
      → waiting s ≡ m ∷ rest
      → Fetched (message_to_task formats m) (tasks_of rest) (fetch formats client config s)
  unfolding message_to_task
  fetch-first s m rest one (p, room) e =
      let (s1, w, p1, same) = fetch-read s p in
      let (got, w2, p2) = read_new-next s1 m rest one (w ∙ e) p1 in
      let ((fresh, d), (good, all), h) = subst (HasRoom 0) e room in
      rw same (
        got,
        ap tasks_of w2,
        (
          p2,
          subst (IsFresh m.id) (sym w2) fresh,
          good,
          subst (HasRoom 1) (sym w2) (d, all, omega (arith, h)),
        ),
      )

  fetch-next :
      (s : S) (t : Task) (ts : List Task)
      → config.count ≡ pos 1
      → IsIdle s
      → tasks_of (waiting s) ≡ t ∷ ts
      → Fetched t ts (fetch formats client config s)
  fetch-next s t ts one i e = elim (message-cases (waiting s)) [
    | inl none_there ↦ absurd (ground (arith, ap tasks_of none_there))
    | inr (m, rest, some_there) ↦
        let r = fetch formats client config s in
        let both = sym (ap tasks_of some_there) ∙ e in
        subst (λ u. Fetched u ts r) (ap (first_or t) both)
          (subst (λ us. Fetched (message_to_task formats m) us r) (ap rest_of both)
            (fetch-first s m rest one i some_there))
  ]

  abbrev redis_QueueLaws :
      config.count ≡ pos 1
      → str_eq config.dlq_stream config.stream ≡ false
      → QueueLaws (redis_provider formats client config)
  redis_QueueLaws one other = record {
    queued = λ s. tasks_of (waiting s);
    Idle = IsIdle;
    Busy = IsBusy;
    busy_ints = λ t s b. b.2.0;
    fetch_none = fetch-none;
    fetch_next = λ s t ts i e. fetch-next s t ts one i e;
    ack_settles = λ t s b.
        let (w, p) = ack-settles t s b in
        (ap tasks_of w, Idle-same s (ack formats client config t s).0 b.3 w p);
    nack_settles = λ now t s b.
        let (w, p) = nack-settles now t s other b in
        (ap tasks_of w, Idle-same s (nack formats client config now t false s).0 b.3 w p);
    nack_requeues = StoredAgain-nack;
  }
