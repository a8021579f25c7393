-- ===== src/Worker/Processing.antt =====
-- The worker, worker.go: one pass of the processing loop over any provider.
use my_go.Common.{
  ℕ, zero, suc, ℤ, pos, ltb_ℤ, leb_ℤ, Time, String, List, [], ◌∷◌, ◌++◌, Option, none, some, Bool,
  true, false, if◌then◌else◌, Fallible, ok, err, StringMap, lookup, insert, add_time, str_eq,
  second, ◌*◌,
}
use my_go.Worker.{
  Task, Config, Context, Ending, succeeded, failed, panicked, fatal, Handler, Provider,
}
use my_go.Worker.Tasks.{should_retry, increment_retry, is_expired, calculate_backoff}
use my_go.Worker.Middlewares.{Middleware, chain, with_timeout, or_else}

pub record Worker (W : Type 0) : Type 0 where
  pub registry : StringMap (Handler W)
  pub middlewares : List (Middleware W)
  pub config : Config

abbrev pub or_default : ℤ → ℤ → ℤ
or_default d z = if leb_ℤ z (pos 0) then d else z

unfoldable pub new : {W : Type 0} → Config → Worker W
new c = record {
  registry = [];
  middlewares = [];
  config = record c {
    concurrency = or_default (pos 10) c.concurrency;
    shutdown_timeout = or_default (pos (30 * second)) c.shutdown_timeout;
  };
}

unfoldable pub register : {W : Type 0} → String → Handler W → Worker W → Worker W
register name handler wk = record wk { registry = insert name handler wk.registry }

unfoldable pub use_middleware : {W : Type 0} → Middleware W → Worker W → Worker W
use_middleware m wk = record wk { middlewares = wk.middlewares ++ (m ∷ []) }

unfoldable pub get_handler : {W : Type 0} → String → Worker W → Fallible String (Handler W)
get_handler name wk = elim (lookup name wk.registry) [
  | none ↦ err "handler not found"
  | some handler ↦ ok handler
]

abbrev pub type_of : Task → String
type_of task = or_else (lookup "type" task.metadata) ""

-- The provider and the handlers may share what they act on, so both act on one state, of which
-- `clock` reads the time. The result says whether a panic has ended the process.
module _ {S : Type 0} (provider : Provider S) (clock : S → Time) (wk : Worker S) where
  open provider use {fetch, ack, nack}

  unfoldable pub handle_task_error : Task → S → S
  handle_task_error task s =
      let next = increment_retry task in
      let delay = calculate_backoff wk.config next.retry in
      let delayed = record next { scheduled_at = add_time (clock s) delay } in
      if should_retry task
      then (nack (clock s) delayed true s).0
      else (nack (clock s) task false s).0

  -- The end of `processTask`; the error of an `Ack` is only logged.
  abbrev pub on_ending : Task → S × Ending → S × Bool
  on_ending task (s, succeeded) = ((ack task s).0, false)
  on_ending task (s, failed e) = (handle_task_error task s, false)
  on_ending task (s, panicked p) = (s, true)
  on_ending task (s, fatal p) = (s, true)

  abbrev pub task_context : Context → Task → S → Context
  task_context ctx task s =
      if ltb_ℤ (pos 0) task.timeout then with_timeout (clock s) task.timeout ctx else ctx

  abbrev pub rejected : Task → S → S × Bool
  rejected task s = ((nack (clock s) task false s).0, false)

  -- The handler is there or not.
  abbrev pub with_handler : Context → Task → S → Option (Handler S) → S × Bool
  with_handler ctx task s none = rejected task s
  with_handler ctx task s (some handler) =
      on_ending task (chain wk.middlewares handler (task_context ctx task s) task s)

  unfoldable pub process_task : Context → Task → S → S × Bool
  process_task ctx task s =
      if is_expired (clock s) task
      then rejected task s
      else if str_eq (type_of task) ""
      then rejected task s
      else with_handler ctx task s (lookup (type_of task) wk.registry)

  abbrev pub on_fetched : Context → S × Fallible String (Option Task) → S × Bool
  on_fetched ctx (s, err e) = (s, false)
  on_fetched ctx (s, ok none) = (s, false)
  on_fetched ctx (s, ok (some task)) = process_task ctx task s

  -- One pass of `processLoop`; how long it sleeps after an error or an empty fetch is left out.
  unfoldable pub process_once : Context → S → S × Bool
  process_once ctx s = on_fetched ctx (fetch s)

  -- Passes of the loop, while nothing stops it and no handler's panic ends the process.
  unfoldable pub process_loop : ℕ → Context → S → S × Bool
  process_loop zero ctx s = (s, false)
  process_loop (suc n) ctx s =
      let (s', crashed) = process_once ctx s in
      elim crashed [ true ↦ (s', true) | false ↦ process_loop n ctx s' ]
