-- ===== src/Rabbit/Connection/Tests.antt =====
-- The connection on one network: the first dial fails, the second gives no channel, the third one
-- succeeds.
use msa_core.Prelude.{zero, suc, String, ℕ, ◌+◌, ◌≡◌, refl, true, none, some, List, [], ◌∷◌, arith}
use msa_core.Prelude.Result.{Error, error, ok}
use msa_core.Rabbit.Topology.{Channel, topology_calls, wrapped, ensure_channel}
use msa_core.Rabbit.Connection.{
  Dial, no_connection, no_channel, connected, Network, Session, Lifetime, usable, next_backoff,
  failed_turn, swapped, reconnect, done_at, ensure_connection, close, new_rabbit_mq_client, fresh,
  first_session,
}
use msa_core.Rabbit.Connection.Abstract.{world, always, ensure_connection-ensure_channel}
use msa_core.Rabbit.Connection.Handles.{
  held, broken, Reach, made, next, connection_breaks, ensured, Reach-unclosed,
  close-ensure_connection,
}

abbrev dial_after : ℕ → Dial
dial_after zero = connected
dial_after (suc zero) = no_connection (error "refused")
dial_after (suc (suc zero)) = no_channel (error "no channel")
dial_after n = connected

abbrev net : Network
net = record { dial = dial_after; takes = λ n. 10; redeclared = λ n. 5 }

abbrev ctx : Lifetime
ctx = record { deadline = none; cancelled = none; reason = error "context deadline exceeded" }

abbrev torn : Session
torn = record first_session {
  conn = broken first_session.conn;
  channel = broken first_session.channel;
}

abbrev back : Session
back = record torn {
  conn = some (fresh 3);
  channel = some (fresh 3);
  unclosed = 3 ∷ [];
  dials = 4;
  clock = 330;
}

ensure_connection-back : ensure_connection net ctx 51 torn torn ≡ some (none, back)
unfolding ensure_connection reconnect failed_turn swapped next_backoff usable done_at topology_calls
ensure_connection-back = refl

abbrev show : List Error → String
show es = "closed with errors"

ensure_connection-ensure_channel_example :
    (c : Channel) × (ensure_channel (always c (λ k cs d. none)) (world 7 torn)
      ≡ (wrapped "rabbitmq channel not available" none, world (7 + 1) back))
ensure_connection-ensure_channel_example =
    ensure_connection-ensure_channel net ctx 51 torn torn back none (λ k cs d. none) 7
      ensure_connection-back

made_connected : new_rabbit_mq_client connected ≡ (ok first_session, 0 ∷ [])
unfolding new_rabbit_mq_client
made_connected = refl

torn-Reach : Reach torn
torn-Reach = next (made connected (0 ∷ []) made_connected) (connection_breaks refl)

Reach-unclosed_example : back.unclosed ≡ held back.conn
Reach-unclosed_example =
    Reach-unclosed (next torn-Reach (ensured net ctx 51 torn none ensure_connection-back))

close-ensure_connection_example :
    ((close show none none back).1.unclosed ≡ [])
    × (t : Session) × (ensure_connection net ctx
          (suc 50)
          (close show none none back).1
          (close show none none back).1
        ≡ some (none, t))
    × (usable t ≡ true)
    × (t.unclosed ≡ 4 ∷ [])
unfolding done_at
close-ensure_connection_example =
    close-ensure_connection net ctx 50 show none none {s = back}
      (next torn-Reach (ensured net ctx 51 torn none ensure_connection-back)) refl (omega arith)
