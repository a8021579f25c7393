-- ===== src/Pgnotify/Pgx.antt =====
-- The connection on pgx, provider_pgx.go. The driver is a parameter: pools in `P` and connections in
-- `C`, with what is outside in `W`. Each method runs under the mutex.
use Prim.Native.String.{◌++◌ as append}
use my_go.Common.{Time, String, Option, none, some, Bool, true, false, ◌&&◌, Fallible, ok, err}
use my_go.Pgnotify.{ConnectionProvider, Notification}

pub record Driver (P C W : Type 0) : Type 0 where
  pub new_pool : String → W → W × Fallible String P
  pub acquire : P → W → W × Fallible String C
  pub release : C → W → W
  pub close_pool : P → W → W
  pub exec : C → String → W → W × Option String
  pub pg_notify : P → String → String → W → W × Option String
  pub wait : C → W → W × Fallible String (String × String)
  pub ping_pool : P → W → W × Option String

pub record PgxProvider (P C W : Type 0) : Type 0 where
  pub dsn : String
  pub pool : Option P
  pub conn : Option C
  pub world : W

-- The texts of `ErrNotConnected` and `ErrConnection`.
abbrev not_connected : String
not_connected = "pgnotify: not connected to PostgreSQL"

abbrev connection_error : String → String → String
connection_error operation e =
    append "pgnotify: connection " (append operation (append " failed: " e))

abbrev is_there : {A : Type 0} → Option A → Bool
is_there none = false
is_there (some a) = true

module _ {P C W : Type 0} (driver : Driver P C W) where
  open driver use {new_pool, acquire, release, close_pool, exec, pg_notify, wait, ping_pool}

  abbrev with_world : PgxProvider P C W → W × Option String → PgxProvider P C W × Option String
  with_world p (w, e) = (record p { world = w }, e)

  -- A statement on the connection, where there is one.
  abbrev on_conn : String → Option C → PgxProvider P C W → PgxProvider P C W × Option String
  on_conn statement none p = (p, some not_connected)
  on_conn statement (some c) p = with_world p (exec c statement p.world)

  unfoldable pub listen : String → PgxProvider P C W → PgxProvider P C W × Option String
  listen channel p = on_conn (append "LISTEN " channel) p.conn p

  unfoldable pub unlisten : String → PgxProvider P C W → PgxProvider P C W × Option String
  unlisten channel p = on_conn (append "UNLISTEN " channel) p.conn p

  abbrev notify_on :
      String → String → Option P → PgxProvider P C W → PgxProvider P C W × Option String
  notify_on channel payload none p = (p, some not_connected)
  notify_on channel payload (some q) p = with_world p (pg_notify q channel payload p.world)

  unfoldable pub notify : String → String → PgxProvider P C W → PgxProvider P C W × Option String
  notify channel payload p = notify_on channel payload p.pool p

  abbrev received : Time → Fallible String (String × String) → Fallible String Notification
  received now (err e) = err e
  received now (ok (channel, payload)) =
      ok (record { channel = channel; payload = payload; received_at = now })

  abbrev wait_on :
      Time → Option C → PgxProvider P C W → PgxProvider P C W × Fallible String Notification
  wait_on now none p = (p, err not_connected)
  wait_on now (some c) p = let (w, r) = wait c p.world in (record p { world = w }, received now r)

  -- The mutex is not held while it waits; `now` is when it returns.
  unfoldable pub wait_for_notification :
      Time → PgxProvider P C W → PgxProvider P C W × Fallible String Notification
  wait_for_notification now p = wait_on now p.conn p

  abbrev ping_on : Option P → PgxProvider P C W → PgxProvider P C W × Option String
  ping_on none p = (p, some not_connected)
  ping_on (some q) p = with_world p (ping_pool q p.world)

  unfoldable pub ping : PgxProvider P C W → PgxProvider P C W × Option String
  ping p = ping_on p.pool p

  abbrev released : Option C → W → W
  released none w = w
  released (some c) w = release c w

  abbrev pool_closed : Option P → W → W
  pool_closed none w = w
  pool_closed (some q) w = close_pool q w

  -- `Close`, and the first half of `Reconnect`.
  unfoldable pub close : PgxProvider P C W → PgxProvider P C W
  close p = record p {
    conn = none;
    pool = none;
    world = pool_closed p.pool (released p.conn p.world);
  }

  unfoldable pub is_connected : PgxProvider P C W → Bool
  is_connected p = is_there p.conn && is_there p.pool

  abbrev after_acquire :
      P → PgxProvider P C W → W × Fallible String C → PgxProvider P C W × Option String
  after_acquire q p (w, err e) =
      (record p { world = close_pool q w }, some (connection_error "acquire" e))
  after_acquire q p (w, ok c) = (record p { pool = some q; conn = some c; world = w }, none)

  abbrev after_pool : PgxProvider P C W → W × Fallible String P → PgxProvider P C W × Option String
  after_pool p (w, err e) = (record p { world = w }, some (connection_error "pool creation" e))
  after_pool p (w, ok q) = after_acquire q p (acquire q w)

  -- `Reconnect`; `NewPgxProvider` is the same on a provider that has neither.
  unfoldable pub reconnect : PgxProvider P C W → PgxProvider P C W × Option String
  reconnect p = let closed = close p in after_pool closed (new_pool closed.dsn closed.world)

  abbrev pub pgx_provider : ConnectionProvider (PgxProvider P C W)
  pgx_provider = record {
    listen = listen;
    unlisten = unlisten;
    notify = notify;
    ping = ping;
    is_connected = is_connected;
    reconnect = reconnect;
  }
