-- ===== src/Worker/Draining.antt =====
-- A worker that recovers from panics empties a queue that gets no new tasks.
use my_go.Common.{
  ℕ, zero, suc, ◌+◌, ◌≤◌, ◌<◌, ◌≡◌, refl, ap, ◌⊎◌, inl, inr, pos, pos_part, ◌+ℤ◌, ◌-ℤ◌, +ℤ_parts,
  -ℤ_parts, IsInt64, int64_of_IsInt64, String, List, [], ◌∷◌, ◌++◌, subst, Option-cases, none, some,
  Bool, true, false, Bool-cases, ok, Time, add_time, arith, lookup, str_eq,
}
use my_go.Worker.{Task, Context, Ending, succeeded, failed, panicked, fatal, Handler, Provider}
use my_go.Worker.Tasks.{should_retry, increment_retry, is_expired, calculate_backoff}
use my_go.Worker.Middlewares.{Middleware, chain, recovery_middleware, recovered}
use my_go.Worker.Processing.{
  type_of, Worker, process_task, process_once, process_loop, handle_task_error, on_ending,
  with_handler, rejected, task_context,
}

-- The counters of a task that is stored again are kept.
abbrev pub SameCounters : Task → Task → Type 0
SameCounters t u = (t.retry ≡ u.retry) × (t.max_retry ≡ u.max_retry)

abbrev pub HasInts : Task → Type 0
HasInts t = IsInt64 t.retry × IsInt64 t.max_retry

abbrev pub is_fatal : Ending → Bool
is_fatal (fatal r) = true
is_fatal _ = false

-- The contract of a provider that loses nothing and does not fail, for one loop: the tasks that wait,
-- and the states in which the loop holds no task, or holds one.
pub record QueueLaws {S : Type 0} (provider : Provider S) : Type 1 where
  pub queued : S → List Task
  pub Idle : S → Type 0
  pub Busy : Task → S → Type 0
  pub busy_ints : (t : Task) (s : S) → Busy t s → HasInts t
  pub fetch_none :
      (s : S)
      → Idle s
      → queued s ≡ []
      → ((provider.fetch s).1 ≡ ok none)
        × (queued (provider.fetch s).0 ≡ [])
        × Idle (provider.fetch s).0
  pub fetch_next :
      (s : S) (t : Task) (ts : List Task)
      → Idle s
      → queued s ≡ t ∷ ts
      → ((provider.fetch s).1 ≡ ok (some t))
        × (queued (provider.fetch s).0 ≡ ts)
        × Busy t (provider.fetch s).0
  pub ack_settles :
      (t : Task) (s : S)
      → Busy t s
      → (queued (provider.ack t s).0 ≡ queued s) × Idle (provider.ack t s).0
  pub nack_settles :
      (now : Time) (t : Task) (s : S)
      → Busy t s
      → (queued (provider.nack now t false s).0 ≡ queued s) × Idle (provider.nack now t false s).0
  pub nack_requeues :
      (now : Time) (t u : Task) (s : S)
      → Busy t s
      → u.id ≡ t.id
      → u.metadata ≡ t.metadata
      → HasInts u
      → Idle (provider.nack now u true s).0
        × ((v : Task) × SameCounters u v
            × (queued (provider.nack now u true s).0 ≡ queued s ++ (v ∷ [])))

-- How often a task can still run.
abbrev pub work : Task → ℕ
work t = 1 + pos_part (t.max_retry -ℤ t.retry)

abbrev pub total_work : List Task → ℕ
total_work [] = 0
total_work (t ∷ ts) = work t + total_work ts

total_work-snoc : (ts : List Task) (t : Task) → total_work (ts ++ (t ∷ [])) ≡ total_work ts + work t
total_work-snoc [] t = omega arith
total_work-snoc (u ∷ ts) t = omega (arith, total_work-snoc ts t)

-- A retry uses up some of the work.
work-increment :
    (t : Task)
    → HasInts t
    → should_retry t ≡ true
    → HasInts (increment_retry t) × (work (increment_retry t) + 1 ≡ work t)
unfolding should_retry increment_retry
work-increment t h r = ground (
  arith,
  int64_of_IsInt64 (t.retry +ℤ pos 1),
  +ℤ_parts t.retry (pos 1),
  -ℤ_parts t.max_retry t.retry,
  -ℤ_parts t.max_retry (t.retry +ℤ pos 1),
)

list-cases : (ts : List Task) → (ts ≡ []) ⊎ ((u : Task) × (us : List Task) × (ts ≡ u ∷ us))
list-cases [] = inl refl
list-cases (u ∷ us) = inr (u, us, refl)

module _ {S : Type 0} (provider : Provider S) (laws : QueueLaws provider) (clock : S → Time)
    (wk : Worker S) (ms : List (Middleware S)) (safe : wk.middlewares ≡ recovery_middleware ∷ ms)
    (untouched : (name : String) (handler : Handler S) (ctx : Context) (t : Task) (s : S)
      → lookup name wk.registry ≡ some handler
      → laws.Busy t s
      → (laws.queued (chain ms handler ctx t s).0 ≡ laws.queued s)
        × laws.Busy t (chain ms handler ctx t s).0
        × (is_fatal (chain ms handler ctx t s).1 ≡ false)) where
  open laws use {
    queued, Idle, Busy, busy_ints, fetch_none, fetch_next, ack_settles, nack_settles, nack_requeues,
  }

  -- The task is settled, or waits again with less work left.
  abbrev DoneFrom : Task → List Task → S × Bool → Type 0
  DoneFrom t l (s', crashed) =
      (crashed ≡ false)
      × Idle s'
      × ((queued s' ≡ l) ⊎ ((u : Task) × (work u < work t) × (queued s' ≡ l ++ (u ∷ []))))

  abbrev Done : Task → S → S × Bool → Type 0
  Done t s r = DoneFrom t (queued s) r

  Done-rejected : (t : Task) (s : S) → Busy t s → Done t s (rejected provider clock wk t s)
  Done-rejected t s b = let (kept, idle) = nack_settles (clock s) t s b in (refl, idle, inl kept)

  Done-requeued :
      (t u : Task) (s : S)
      → Busy t s
      → u.id ≡ t.id
      → u.metadata ≡ t.metadata
      → HasInts u
      → work u + 1 ≡ work t
      → Done t s ((provider.nack (clock s) u true s).0, false)
  Done-requeued t u s b i m h e =
      let (idle, (v, same, there)) = nack_requeues (clock s) t u s b i m h in
      (refl, idle, inr (v, ground arith, there))

  Done-handle_task_error :
      (t : Task) (s : S) (again : Bool)
      → should_retry t ≡ again
      → Busy t s
      → Done t s (handle_task_error provider clock wk t s, false)
  unfolding handle_task_error increment_retry
  Done-handle_task_error t s true e b =
      let (ints, less) = work-increment t (busy_ints t s b) e in
      rw (handle_task_error, e)
        (Done-requeued t
          (record (increment_retry t) {
            scheduled_at =
                add_time (clock s) (calculate_backoff wk.config (increment_retry t).retry);
          })
          s b refl refl ints less)
  Done-handle_task_error t s false e b =
      let (kept, idle) = nack_settles (clock s) t s b in
      rw (handle_task_error, e) (refl, idle, inl kept)

  -- After the recovery middleware no panic is left but those of other goroutines.
  Done-on_ending :
      (t : Task) (s : S) (r : Ending)
      → Busy t s
      → is_fatal r ≡ false
      → Done t s (on_ending provider clock wk t (s, recovered r))
  Done-on_ending t s succeeded b h = let (kept, idle) = ack_settles t s b in (refl, idle, inl kept)
  Done-on_ending t s (failed e) b h = Done-handle_task_error t s (should_retry t) refl b
  Done-on_ending t s (panicked p) b h = Done-handle_task_error t s (should_retry t) refl b
  Done-on_ending t s (fatal p) b h = absurd (ground arith)

  Done-with_handler :
      (ctx : Context) (t : Task) (s : S) (name : String)
      → Busy t s
      → Done t s (with_handler provider clock wk ctx t s (lookup name wk.registry))
  unfolding chain recovery_middleware handle_task_error
  Done-with_handler ctx t s name b = elim (Option-cases (lookup name wk.registry)) [
    | inl e ↦ rw e (Done-rejected t s b)
    | inr (handler, e) ↦
        let ctx' = task_context provider clock wk ctx t s in
        let ended = chain ms handler ctx' t s in
        let (same, still, calm) = untouched name handler ctx' t s e b in
        let r = on_ending provider clock wk t (ended.0, recovered ended.1) in
        rw e
          (rw safe (subst (λ l. DoneFrom t l r) same (Done-on_ending t ended.0 ended.1 still calm)))
  ]

  Done-process_task :
      (ctx : Context) (t : Task) (s : S)
      → Busy t s
      → Done t s (process_task provider clock wk ctx t s)
  unfolding process_task
  Done-process_task ctx t s b = elim (Bool-cases (is_expired (clock s) t)) [
    | inl e ↦ rw (process_task, e) (Done-rejected t s b)
    | inr e ↦ elim (Bool-cases (str_eq (type_of t) "")) [
      | inl e2 ↦ rw (process_task, e) (rw e2 (Done-rejected t s b))
      | inr e2 ↦ rw (process_task, e) (rw e2 (Done-with_handler ctx t s _ b))
    ]
  ]

  -- What one pass does to a queue with a task at its head.
  abbrev Shrinks : List Task → S × Bool → Type 0
  Shrinks ts (s', crashed) = (crashed ≡ false) × Idle s' × (total_work (queued s') < total_work ts)

  Shrinks-Done :
      (t : Task) (ts : List Task) (s1 : S) (r : S × Bool)
      → queued s1 ≡ ts
      → Done t s1 r
      → Shrinks (t ∷ ts) r
  Shrinks-Done t ts s1 r q (e, idle, inl same) = (e, idle, rw same (rw q (omega arith)))
  Shrinks-Done t ts s1 r q (e, idle, inr (u, less, there)) =
      (e, idle, rw there (rw q (omega (arith, total_work-snoc ts u))))

  Shrinks-process_once :
      (ctx : Context) (t : Task) (ts : List Task) (s : S)
      → Idle s
      → queued s ≡ t ∷ ts
      → Shrinks (t ∷ ts) (process_once provider clock wk ctx s)
  unfolding process_once
  Shrinks-process_once ctx t ts s i e =
      let (got, q, b) = fetch_next s t ts i e in
      let s1 = (provider.fetch s).0 in
      rw (process_once, got)
        (Shrinks-Done t ts s1 (process_task provider clock wk ctx t s1) q
          (Done-process_task ctx t s1 b))

  process_loop-next :
      (n : ℕ) (ctx : Context) (s : S)
      → (process_once provider clock wk ctx s).1 ≡ false
      → process_loop provider clock wk (suc n) ctx s
        ≡ process_loop provider clock wk n ctx (process_once provider clock wk ctx s).0
  unfolding process_loop
  process_loop-next n ctx s e = rw (process_loop, e)

  process_once-none :
      (ctx : Context) (s : S)
      → Idle s
      → queued s ≡ []
      → process_once provider clock wk ctx s ≡ ((provider.fetch s).0, false)
  unfolding process_once
  process_once-none ctx s i e = rw (process_once, (fetch_none s i e).0)

  -- The queue is empty, no task is held, and nothing panicked.
  abbrev pub Drained : S × Bool → Type 0
  Drained (s', crashed) = (crashed ≡ false) × (queued s' ≡ []) × Idle s'

  -- After as many passes as the waiting tasks have runs left, the queue is drained.
  pub process_loop-drains :
      (n : ℕ) (ctx : Context) (s : S)
      → Idle s
      → total_work (queued s) ≤ n
      → Drained (process_loop provider clock wk n ctx s)
  unfolding process_loop
  process_loop-drains zero ctx s i h = elim (list-cases (queued s)) [
    | inl e ↦ (refl, e, i)
    | inr (t, ts, e) ↦ absurd (omega (arith, ap total_work e))
  ]
  process_loop-drains (suc n) ctx s i h = elim (list-cases (queued s)) [
    | inl e ↦
        let (got, q, idle) = fetch_none s i e in
        rw (process_loop-next n ctx s (ap (λ r. r.1) (process_once-none ctx s i e))) (
          rw (process_once-none ctx s i e)
            (process_loop-drains n ctx (provider.fetch s).0 idle (omega (arith, ap total_work q))))
    | inr (t, ts, e) ↦
        let (calm, idle, less) = Shrinks-process_once ctx t ts s i e in
        let after = (process_once provider clock wk ctx s).0 in
        rw (process_loop-next n ctx s calm)
          (process_loop-drains n ctx after idle (omega (arith, less, ap total_work e)))
  ]
