-- ===== src/Rabbit/Connection.antt =====
-- The connection of pkg/infrastructure/rabbitmq/rabbitmq.go: NewRabbitMQClient, ensureChannel with
-- its reconnection loop, and Close. The network is a parameter: how each dial ends and how long it
-- takes, and how much of the topology is applied again before that times out. Times are milliseconds.
pub mod Reconnect
pub mod Abstract
pub mod Handles
mod Tests
use msa_core.Prelude.{
  ℕ, zero, suc, ◌+◌, ◌*◌, String, Bool, true, false, not, ◌&&◌, Option, none, some, List, [], ◌∷◌,
  ◌++◌, take, ltb, leb, nat_beq, if◌then◌else◌,
}
use msa_core.Prelude.Result.{Error, error, wrap, Result, ok, err}
use msa_core.Rabbit.Topology.{Client, new_client, Call, topology_calls}

-- an amqp091 connection or channel; `closed` is what IsClosed says
pub record Handle : Type 0 where
  pub number : ℕ
  pub closed : Bool

-- how one turn of the loop goes: dial fails, newConn.Channel fails, or both succeed
pub data Dial : Type 0 where
  no_connection no_channel : Error → Dial
  connected : Dial

-- by the number of the dial
pub record Network : Type 0 where
  pub dial : ℕ → Dial
  pub takes : ℕ → ℕ
  pub redeclared : ℕ → ℕ

-- The client, the time, the number of dials so far, and the connections, by their numbers, that
-- have been made and that the client has not closed.
pub record Session : Type 0 where
  pub conn : Option Handle
  pub channel : Option Handle
  pub unclosed : List ℕ
  pub dials : ℕ
  pub clock : ℕ
  pub client : Client
  pub calls : List Call

abbrev pub is_open : Option Handle → Bool
is_open none = false
is_open (some h) = not h.closed

-- `ch != nil && !ch.IsClosed() && conn != nil && !conn.IsClosed()`
unfoldable pub usable : Session → Bool
usable s = is_open s.channel && is_open s.conn

abbrev pub release : ℕ → List ℕ → List ℕ
release n [] = []
release n (m ∷ ms) = if nat_beq m n then ms else m ∷ release n ms

-- `if conn != nil { conn.Close() }`, its error left aside
abbrev pub release_handle : Option Handle → List ℕ → List ℕ
release_handle none ms = ms
release_handle (some h) ms = release h.number ms

unfoldable pub next_backoff : ℕ → ℕ
next_backoff backoff = if ltb backoff 2000 then backoff * 2 else backoff

-- a turn that fails: the connection without a channel is closed again
unfoldable pub failed_turn : Network → ℕ → Session → Session
failed_turn net backoff s = record s {
  unclosed = elim (net.dial s.dials) [
    | no_channel e ↦ release s.dials (s.dials ∷ s.unclosed)
    | no_connection e ↦ s.unclosed
    | connected ↦ s.unclosed
  ];
  dials = s.dials + 1;
  clock = s.clock + net.takes s.dials + backoff;
}

abbrev pub fresh : ℕ → Handle
fresh n = record { number = n; closed = false }

-- the new connection and channel in place of the old ones, and the topology applied again
unfoldable pub swapped : Network → Session → Session
swapped net s = record s {
  conn = some (fresh s.dials);
  channel = some (fresh s.dials);
  unclosed = release_handle s.conn (s.dials ∷ s.unclosed);
  dials = s.dials + 1;
  clock = s.clock + net.takes s.dials;
  calls = s.calls ++ take (net.redeclared s.dials) (topology_calls s.client);
}

abbrev pub timed_out : Error → Error
timed_out reason = wrap "rabbitmq reconnect timeout" reason

-- The loop, until the context is done at the time `until`, for the reason that ctx.Err() gives;
-- `none` is fuel that has run out.
unfoldable pub reconnect : Network → ℕ → Error → ℕ → ℕ → Session → Option (Option Error × Session)
reconnect net until reason zero backoff s = none
reconnect net until reason (suc fuel) backoff s =
    let rest = reconnect net until reason fuel (next_backoff backoff) (failed_turn net backoff s) in
    if leb until s.clock then some (some (timed_out reason), s) else (elim (net.dial s.dials) [
      | no_connection e ↦ rest
      | no_channel e ↦ rest
      | connected ↦ some (none, swapped net s)
    ])

-- the times at which a context ends, by its deadline and by a cancellation, and its error then
pub record Lifetime : Type 0 where
  pub deadline : Option ℕ
  pub cancelled : Option ℕ
  pub reason : Error

abbrev pub or_later : ℕ → Option ℕ → ℕ
or_later d none = d
or_later d (some t) = if ltb t d then t else d

abbrev pub or_default : ℕ → Option ℕ → ℕ
or_default d none = d
or_default d (some t) = t

-- a context without a deadline gets one, five seconds from now
unfoldable pub done_at : Lifetime → ℕ → ℕ
done_at ctx now = or_later (or_default (now + 5000) ctx.deadline) ctx.cancelled

-- `before` is the client at the first check, and `s` the client after the lock for reconnecting has
-- been taken, which another caller may have held in between.
unfoldable pub ensure_connection :
    Network → Lifetime → ℕ → Session → Session → Option (Option Error × Session)
ensure_connection net ctx fuel before s =
    if usable before
    then some (none, s)
    else if usable s
    then some (none, s)
    else reconnect net (done_at ctx s.clock) ctx.reason fuel 100 s

abbrev initial : Session
initial = record {
  conn = none;
  channel = none;
  unclosed = [];
  dials = 0;
  clock = 0;
  client = new_client;
  calls = [];
}

abbrev pub first_session : Session
first_session = record initial {
  conn = some (fresh 0);
  channel = some (fresh 0);
  unclosed = 0 ∷ [];
  dials = 1;
}

-- `NewRabbitMQClient`, with the connections that it leaves unclosed
unfoldable pub new_rabbit_mq_client : Dial → Result Session × List ℕ
new_rabbit_mq_client (no_connection e) = (err (wrap "failed to connect to RabbitMQ" e), [])
new_rabbit_mq_client (no_channel e) = (err (wrap "failed to open channel" e), release 0 (0 ∷ []))
new_rabbit_mq_client connected = (ok first_session, 0 ∷ [])

abbrev failure : {A : Type 0} → Option A → String → Option Error → List Error
failure none s e = []
failure (some h) s none = []
failure (some h) s (some e) = wrap s e ∷ []

abbrev closing_error : (List Error → String) → List Error → Option Error
closing_error show [] = none
closing_error show (e ∷ es) = some (error (show (e ∷ es)))

-- `Close`: how the two Close calls end is given, and the text of the errors
unfoldable pub close :
    (List Error → String) → Option Error → Option Error → Session → Option Error × Session
close show channel_end conn_end s = (
  closing_error show (
      failure s.channel "failed to close channel" channel_end
      ++ failure s.conn "failed to close connection" conn_end),
  record s { conn = none; channel = none; unclosed = release_handle s.conn s.unclosed },
)
