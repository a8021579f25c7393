-- ===== src/Rate/Middleware/Serving.antt =====
-- How many requests reach the handler behind the HTTP middleware, with the fixed window strategy.
use my_go.Common.{ℤ, pos, Time, String, List, [], ◌∷◌, none, Fallible}
use my_go.Rate.Types.{FloatOps, Config, Result, Error}
use my_go.Rate.Memory.{MemoryStorage, memory_storage, cleanup}
use my_go.Rate.History.{Call, Event, request, sweep, World}
use my_go.Rate.FixedWindow
use my_go.Rate.Limiter.{fixed_window, execute}
use my_go.Rate.Middleware.{Request, Writer, HttpMiddleware, default_on_limited, middleware}

pub data HttpEvent : Type 0 where
  arrives : Time → Request → HttpEvent
  swept : Time → HttpEvent

-- A writer that leaves no trace.
abbrev pub silent : {W : Type 0} → Writer W
silent = record {
  set_header = λ name text w. w;
  http_error = λ text code w. w;
  write_header = λ code w. w;
  write = λ text w. w;
}

module _ (fl : FloatOps) (itoa : ℤ → String) (cfg : Config) (key_func : Request → String) where
  -- The handler records that a request has reached it.
  abbrev pub record_served : Time → Request → List Call → List Call
  record_served now r served = record { at = now; key = key_func r; amount = pos 1 } ∷ served

  abbrev pub limiting : HttpMiddleware (List Call)
  limiting = record {
    limiter = record { config = cfg; executor = fixed_window };
    key_func = key_func;
    on_limited = default_on_limited itoa silent;
    skip_func = none;
  }

  -- The server's storage and the requests that have reached the handler, after some events.
  unfoldable pub serve :
      HttpEvent → MemoryStorage fl.Float × List Call → MemoryStorage fl.Float × List Call
  serve (arrives now r) (s, served) =
      middleware itoa silent fl (memory_storage fl) limiting (record_served now) now now r
        (s, served)
  serve (swept now) (s, served) = (cleanup now s, served)

  unfoldable pub serve_all :
      List HttpEvent → MemoryStorage fl.Float × List Call → MemoryStorage fl.Float × List Call
  serve_all [] w = w
  serve_all (e ∷ es) w = serve_all es (serve e w)

  abbrev pub event_of : HttpEvent → Event
  event_of (arrives now r) = request (record { at = now; key = key_func r; amount = pos 1 })
  event_of (swept now) = sweep now

  abbrev pub events_of : List HttpEvent → List Event
  events_of [] = []
  events_of (e ∷ es) = event_of e ∷ events_of es

  pair_of : World fl.Float → MemoryStorage fl.Float × List Call
  pair_of w = (w.storage, w.grants)

  abbrev window_execute :
      Time → String → ℤ → MemoryStorage fl.Float → MemoryStorage fl.Float × Fallible Error Result
  window_execute now k n s = FixedWindow.execute fl (memory_storage fl) now k n cfg s
