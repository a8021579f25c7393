-- ===== src/Worker/RoundTrip.antt =====
-- A task that is written to a Redis stream and read back.
use my_go.Common.{
  ◌≡◌, refl, inl, inr, pos, ltb_ℤ, String, [], ◌∷◌, Option, none, some, Bool, true, false,
  Option-cases, if◌then◌else◌, truncate, second, StringMap, lookup, insert, lookup-insert, eq_iff,
  arith,
}
use my_go.Worker.{Task}
use my_go.Worker.Redis.{
  Formats, parsed, insert_where, is_extra, all_keys, message_to_task, task_to_values, timed_values,
  with_metadata, add_metadata,
}

-- The first value that is there.
abbrev first_of : Option String → Option String → Option String
first_of none o = o
first_of (some v) o = some v

lookup-insert_where :
    (test : String → Bool) (key : String) (m into : StringMap String)
    → lookup key (insert_where test m into)
      ≡ (if test key then first_of (lookup key m) (lookup key into) else lookup key into)
unfolding insert_where lookup
lookup-insert_where test key [] into = ground arith
lookup-insert_where test key ((k, v) ∷ rest) into = ground (
  arith,
  lookup-insert_where test key rest into,
  lookup-insert k key v (insert_where test rest into),
  eq_iff k key,
)

-- No key of the metadata is the name of a field.
abbrev pub AllExtra : StringMap String → Type 0
AllExtra [] = Unit
AllExtra ((k, v) ∷ rest) = (is_extra k ≡ true) × AllExtra rest

lookup-AllExtra :
    (key : String) (m : StringMap String) → AllExtra m → is_extra key ≡ false → lookup key m ≡ none
unfolding lookup
lookup-AllExtra key [] a h = refl
lookup-AllExtra key ((k, v) ∷ rest) (e, a) h =
    ground (arith, lookup-AllExtra key rest a h, eq_iff k key)

module _ (formats : Formats) (task : Task) where
  open formats use {
    bytes_to_string, string_to_bytes, format_time, parse_time, itoa, atoi, format_duration,
    parse_duration, marshal, unmarshal,
  }

  -- What the formats do with the values of this task.
  pub record ReadsBack (text : String) : Type 0 where
    pub bytes_back : string_to_bytes (bytes_to_string task.payload) ≡ task.payload
    pub retry_back : atoi (itoa task.retry) ≡ some task.retry
    pub max_retry_back : atoi (itoa task.max_retry) ≡ some task.max_retry
    -- RFC 3339 has no parts of a second.
    pub time_back :
        parse_time (format_time task.created_at) ≡ some (truncate task.created_at (pos second))
    pub duration_back : parse_duration (format_duration task.timeout) ≡ some task.timeout
    pub metadata_written : marshal task.metadata ≡ some text
    pub metadata_back : unmarshal text ≡ some task.metadata

  -- The fields, with the text of the metadata if there is any.
  abbrev pub fields : StringMap String → StringMap String
  fields [] = timed_values formats task
  fields (entry ∷ rest) = with_metadata (marshal (entry ∷ rest)) (timed_values formats task)

  lookup-timed_values :
      (key : String) → is_extra key ≡ true → lookup key (timed_values formats task) ≡ none
  unfolding lookup insert
  lookup-timed_values key h = ground (
    arith,
    eq_iff "payload" key,
    eq_iff "created_at" key,
    eq_iff "retry" key,
    eq_iff "max_retry" key,
    eq_iff "timeout" key,
  )

  lookup-with_metadata :
      (key : String) (text : Option String)
      → is_extra key ≡ true
      → lookup key (with_metadata text (timed_values formats task)) ≡ none
  lookup-with_metadata key none h = lookup-timed_values key h
  lookup-with_metadata key (some text) h = ground (
    arith,
    lookup-timed_values key h,
    lookup-insert "metadata" key text (timed_values formats task),
    eq_iff "metadata" key,
  )

  lookup-fields :
      (key : String) (m : StringMap String) → is_extra key ≡ true → lookup key (fields m) ≡ none
  lookup-fields key [] h = lookup-timed_values key h
  lookup-fields key (entry ∷ rest) h = lookup-with_metadata key (marshal (entry ∷ rest)) h

  lookup-add_metadata :
      (key : String) (m : StringMap String)
      → lookup key (add_metadata formats m (timed_values formats task))
        ≡ first_of (lookup key m) (lookup key (fields m))
  unfolding lookup
  lookup-add_metadata key [] = refl
  lookup-add_metadata key (entry ∷ rest) =
      lookup-insert_where all_keys key (entry ∷ rest) (fields (entry ∷ rest))

  -- A field is read as it was written: no metadata stands in its place.
  pub lookup-field :
      (key : String)
      → AllExtra task.metadata
      → is_extra key ≡ false
      → lookup key (task_to_values formats task) ≡ lookup key (fields task.metadata)
  unfolding task_to_values
  lookup-field key a h =
      ground (arith, lookup-add_metadata key task.metadata, lookup-AllExtra key task.metadata a h)

  -- The field that each key has, whatever the metadata.
  pub lookup-fields-known :
      (m : StringMap String)
      → (lookup "payload" (fields m) ≡ some (bytes_to_string task.payload))
        × (lookup "retry" (fields m) ≡ some (itoa task.retry))
        × (lookup "max_retry" (fields m) ≡ some (itoa task.max_retry))
        × (lookup "created_at" (fields m) ≡ some (format_time task.created_at))
        × (lookup "timeout" (fields m)
            ≡ (if ltb_ℤ (pos 0) task.timeout then some (format_duration task.timeout) else none))
  unfolding lookup insert
  lookup-fields-known [] = ground arith
  lookup-fields-known (entry ∷ rest) = elim (Option-cases (marshal (entry ∷ rest))) [
    | inl e ↦ ground arith
    | inr (text, e) ↦ ground arith
  ]

  -- The text of the metadata gives the metadata back.
  parsed-metadata :
      (m : StringMap String) (text : String)
      → marshal m ≡ some text
      → unmarshal text ≡ some m
      → parsed unmarshal [] (lookup "metadata" (fields m)) ≡ m
  unfolding lookup insert
  parsed-metadata [] text there back = ground arith
  parsed-metadata (entry ∷ rest) text there back = rw there (ground arith)

  -- Beside the metadata that was read, the single fields change nothing.
  lookup-extras :
      (key : String)
      → lookup key (insert_where is_extra (task_to_values formats task) task.metadata)
        ≡ lookup key task.metadata
  unfolding task_to_values
  lookup-extras key = ground (
    arith,
    lookup-insert_where is_extra key (task_to_values formats task) task.metadata,
    lookup-add_metadata key task.metadata,
    lookup-fields key task.metadata,
  )

  -- A task whose metadata has no key that names a field is written to a stream and read back under some
  -- id. The numbers, the timeout and the metadata of it that are printed can be read, and of the
  -- creation time its whole seconds. Then the payload and the counters are the same, the creation time
  -- loses what it has beyond whole seconds, a positive timeout is the same and any other is 0, and each
  -- key of the metadata has its value.
  pub message_to_task-task_to_values :
      (text id key : String)
      → AllExtra task.metadata
      → ReadsBack text
      → let back =
          message_to_task formats (record { id = id; values = task_to_values formats task }) in
        (back.payload ≡ task.payload)
        × (back.retry ≡ task.retry)
        × (back.max_retry ≡ task.max_retry)
        × (back.created_at ≡ truncate task.created_at (pos second))
        × (back.timeout ≡ (if ltb_ℤ (pos 0) task.timeout then task.timeout else pos 0))
        × (lookup key back.metadata ≡ lookup key task.metadata)
  unfolding message_to_task
  message_to_task-task_to_values text id key a r =
      let (f_payload, f_retry, f_max, f_created, f_timeout) = lookup-fields-known task.metadata in
      (
        rw (lookup-field "payload" a refl) (rw f_payload r.bytes_back),
        rw (lookup-field "retry" a refl) (rw f_retry (ground (arith, r.retry_back))),
        rw (lookup-field "max_retry" a refl) (rw f_max (ground (arith, r.max_retry_back))),
        rw (lookup-field "created_at" a refl) (rw f_created (ground (arith, r.time_back))),
        rw (lookup-field "timeout" a refl) (rw f_timeout (ground (arith, r.duration_back))),
        rw (lookup-field "metadata" a refl) (
            rw (parsed-metadata task.metadata text r.metadata_written r.metadata_back)
              (lookup-extras key)),
      )
