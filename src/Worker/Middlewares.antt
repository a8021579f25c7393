-- ===== src/Worker/Middlewares.antt =====
-- The middlewares: middleware.go and the files middleware_*.go. What they log is left out.
use Prim.Native.String.{◌++◌ as append}
use my_go.Common.{
  pos, leb_ℤ, ltb, Time, Duration, List, [], ◌∷◌, Option, none, some, if◌then◌else◌, lookup,
  add_time,
}
use my_go.Worker.{Task, Context, Ending, succeeded, failed, panicked, fatal, Handler}

abbrev pub Middleware : Type 0 → Type 0
Middleware W = Handler W → Handler W

-- `Chain`: the last middleware is applied first, so that the first one runs first.
unfoldable pub chain : {W : Type 0} → List (Middleware W) → Handler W → Handler W
chain [] handler = handler
chain (m ∷ ms) handler = m (chain ms handler)

abbrev pub recovered : Ending → Ending
recovered succeeded = succeeded
recovered (failed e) = failed e
recovered (panicked r) = failed (append "panic recovered: " r)
recovered (fatal r) = fatal r

unfoldable pub recovery_middleware : {W : Type 0} → Middleware W
recovery_middleware next ctx task w = let (w', r) = next ctx task w in (w', recovered r)

-- `context.WithTimeout`: the earlier of the two deadlines.
abbrev pub earlier : Time → Option Time → Option Time
earlier t none = some t
earlier t (some u) = if ltb t u then some t else some u

abbrev pub with_timeout : Time → Duration → Context → Context
with_timeout now d ctx = record ctx { deadline = earlier (add_time now d) ctx.deadline }

abbrev pub or_overtaken : {W : Type 0} → Option W → W × Ending → W × Ending
or_overtaken none result = result
or_overtaken (some w) result = (w, failed "task timeout exceeded")

-- Nothing recovers from a panic in the goroutine that calls the handler.
abbrev pub in_goroutine : Ending → Ending
in_goroutine succeeded = succeeded
in_goroutine (failed e) = failed e
in_goroutine (panicked r) = fatal r
in_goroutine (fatal r) = fatal r

-- `clock` reads the time. Where the timer fires first, `overtaken` gives the world at that time, in
-- which the handler still runs; what it does after that, a panic included, is left out.
unfoldable pub timeout_middleware :
    {W : Type 0} → (W → Time) → (Context → Task → W → Option W) → Middleware W
timeout_middleware clock overtaken next ctx task w =
    let ctx' = with_timeout (clock w) task.timeout ctx in
    let (w', r) = next ctx' task w in
    let raced = or_overtaken (overtaken ctx' task w) (w', in_goroutine r) in
    if leb_ℤ task.timeout (pos 0) then next ctx task w else raced

abbrev pub or_else : {A : Type 0} → Option A → A → A
or_else none a = a
or_else (some b) a = b

-- The correlation id of the metadata, or else the task's id.
unfoldable pub tracing_middleware : {W : Type 0} → Middleware W
tracing_middleware next ctx task w =
    let id = or_else (lookup "correlation_id" task.metadata) task.id in
    next (record ctx { correlation_id = some id }) task w
