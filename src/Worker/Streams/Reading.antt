-- ===== src/Worker/Streams/Reading.antt =====
-- Messages of a Redis stream, and a task that `requeue` of provider_redis.go stores and `Fetch` reads.
use my_go.Common.{
  ◌≡◌, refl, ◌∙◌, sym, ℤ, pos, IsInt64, String, List, [], ◌∷◌, ◌++◌, Option, none, some, Bool, true,
  false, Bool-cases, inl, inr, if◌then◌else◌, StringMap, lookup, insert, lookup-insert, eq_iff,
  str_eq, arith,
}
use my_go.Worker.{Task}
use my_go.Worker.Draining.{HasInts, SameCounters}
use my_go.Worker.Redis.{
  Formats, Message, parsed, insert_where, is_extra, timed_values, with_metadata, message_to_task,
  task_to_values,
}
use my_go.Worker.RoundTrip.{AllExtra, fields, lookup-field, lookup-fields-known}

-- No waiting message has the id.
abbrev pub IsFresh : String → List Message → Type 0
IsFresh id [] = Unit
IsFresh id (m ∷ ms) = (str_eq m.id id ≡ false) × IsFresh id ms

abbrev pub AllDistinct : List Message → Type 0
AllDistinct [] = Unit
AllDistinct (m ∷ ms) = IsFresh m.id ms × AllDistinct ms

pub IsFresh-snoc :
    (id : String) (ms : List Message) (m : Message)
    → IsFresh id ms
    → str_eq m.id id ≡ false
    → IsFresh id (ms ++ (m ∷ []))
IsFresh-snoc id [] m f e = (e, tt)
IsFresh-snoc id (x ∷ ms) m (h, f) e = (h, IsFresh-snoc id ms m f e)

pub AllDistinct-snoc :
    (ms : List Message) (m : Message)
    → AllDistinct ms
    → IsFresh m.id ms
    → AllDistinct (ms ++ (m ∷ []))
AllDistinct-snoc [] m d f = (tt, tt)
AllDistinct-snoc (x ∷ ms) m (fx, d) (e, f) = (
  IsFresh-snoc x.id ms m fx (ground (arith, eq_iff x.id m.id, eq_iff m.id x.id)),
  AllDistinct-snoc ms m d f,
)

-- What package strconv and encoding/json do: a number is read as it was printed, and the JSON text of
-- a map of texts names no key that the map does not name.
pub record FormatLaws (formats : Formats) : Type 0 where
  pub atoi_itoa : (z : ℤ) → IsInt64 z → formats.atoi (formats.itoa z) ≡ some z
  pub json_keys :
      (m : StringMap String)
      → AllExtra m
      → AllExtra (parsed formats.unmarshal [] (formats.marshal m))

AllExtra-insert :
    (key value : String) (m : StringMap String)
    → is_extra key ≡ true
    → AllExtra m
    → AllExtra (insert key value m)
unfolding insert
AllExtra-insert key value [] e a = (e, tt)
AllExtra-insert key value ((k, v) ∷ rest) e (e', a) = elim (Bool-cases (str_eq k key)) [
  | inl s ↦ rw s (e, a)
  | inr s ↦ rw s (e', AllExtra-insert key value rest e a)
]

pub AllExtra-insert_where :
    (values into : StringMap String) → AllExtra into → AllExtra (insert_where is_extra values into)
unfolding insert_where
AllExtra-insert_where [] into a = a
AllExtra-insert_where ((k, v) ∷ rest) into a = elim (Bool-cases (is_extra k)) [
  | inl e ↦ rw e (AllExtra-insert k v _ e (AllExtra-insert_where rest into a))
  | inr e ↦ rw e (AllExtra-insert_where rest into a)
]

abbrev pub first_or : Task → List Task → Task
first_or t [] = t
first_or t (u ∷ us) = u

abbrev pub rest_of : List Task → List Task
rest_of [] = []
rest_of (u ∷ us) = us

-- A task that is there again after it is stored and read.
abbrev pub IsGood : Task → Type 0
IsGood t = HasInts t × AllExtra t.metadata

module _ (formats : Formats) (printing : FormatLaws formats) where
  abbrev pub AllGood : List Message → Type 0
  AllGood [] = Unit
  AllGood (m ∷ ms) = IsGood (message_to_task formats m) × AllGood ms

  pub AllGood-snoc :
      (ms : List Message) (m : Message)
      → AllGood ms
      → IsGood (message_to_task formats m)
      → AllGood (ms ++ (m ∷ []))
  AllGood-snoc [] m a g = (g, tt)
  AllGood-snoc (x ∷ ms) m (h, a) g = (h, AllGood-snoc ms m a g)

  -- The values that `requeue` writes.
  abbrev pub delayed : Bool → String → Task → StringMap String
  delayed later text u =
      if later
      then insert "scheduled_at" text (task_to_values formats u)
      else task_to_values formats u

  lookup-delayed :
      (later : Bool) (text : String) (u : Task) (key : String)
      → str_eq "scheduled_at" key ≡ false
      → lookup key (delayed later text u) ≡ lookup key (task_to_values formats u)
  lookup-delayed true text u key e =
      ground (arith, lookup-insert "scheduled_at" key text (task_to_values formats u))
  lookup-delayed false text u key e = refl

  lookup-delayed_field :
      (later : Bool) (text : String) (u : Task) (key : String)
      → AllExtra u.metadata
      → str_eq "scheduled_at" key ≡ false
      → is_extra key ≡ false
      → lookup key (delayed later text u) ≡ lookup key (fields formats u u.metadata)
  lookup-delayed_field later text u key a e x =
      lookup-delayed later text u key e ∙ lookup-field formats u key a x

  lookup-timed : (u : Task) → lookup "metadata" (timed_values formats u) ≡ none
  unfolding lookup insert
  lookup-timed u = ground arith

  lookup-metadata :
      (u : Task) (o : Option String)
      → lookup "metadata" (with_metadata o (timed_values formats u)) ≡ o
  lookup-metadata u none = lookup-timed u
  lookup-metadata u (some text) =
      ground (arith, lookup-insert "metadata" "metadata" text (timed_values formats u))

  AllExtra-json :
      (u : Task) (m : StringMap String)
      → AllExtra m
      → AllExtra (parsed formats.unmarshal [] (lookup "metadata" (fields formats u m)))
  AllExtra-json u [] a = rw (lookup-timed u) tt
  AllExtra-json u (entry ∷ rest) a =
      rw (lookup-metadata u (formats.marshal (entry ∷ rest))) (printing.json_keys (entry ∷ rest) a)

  -- A task that is requeued is read with its counters, and can be requeued again.
  pub read_again :
      (later : Bool) (text id : String) (u : Task)
      → IsGood u
      → let v = message_to_task formats (record { id = id; values = delayed later text u }) in
        SameCounters u v × IsGood v
  unfolding message_to_task
  read_again later text id u (ints, a) =
      let (f_payload, f_retry, f_max, f_created, f_timeout) =
        lookup-fields-known formats u u.metadata in
      let at_retry = lookup-delayed_field later text u "retry" a refl refl ∙ f_retry in
      let at_max = lookup-delayed_field later text u "max_retry" a refl refl ∙ f_max in
      let at_metadata = lookup-delayed_field later text u "metadata" a refl refl in
      let retry_back : parsed formats.atoi (pos 0) (lookup "retry" (delayed later text u))
          ≡ u.retry =
        rw at_retry (ground (arith, printing.atoi_itoa u.retry ints.0)) in
      let max_back : parsed formats.atoi (pos 0) (lookup "max_retry" (delayed later text u))
          ≡ u.max_retry =
        rw at_max (ground (arith, printing.atoi_itoa u.max_retry ints.1)) in
      (
        (sym retry_back, sym max_back),
        (
          (rw retry_back ints.0, rw max_back ints.1),
          AllExtra-insert_where (delayed later text u) _
              (rw at_metadata (AllExtra-json u u.metadata a)),
        ),
      )
