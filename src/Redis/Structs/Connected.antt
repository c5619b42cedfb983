-- ===== src/Redis/Structs/Connected.antt =====
-- The commands that HSet and HGet of a connected client send, and what they make of the answers.
use msa_core.Prelude.{String, ◌≡◌, refl, ap}
use msa_core.Prelude.Int.{ℤ}
use msa_core.Prelude.Text.{◌+++◌}
use msa_core.Redis.{
  RedisClient, Mode, cluster, single, uninitialized, then_value, Kind, Command, Outcome, value,
  absent, failed, panics, text, number, Server, ignored, send, encoded, h_set_command,
  h_get_command,
}
use msa_core.Redis.Hashes.{h_set, h_get, val_or, nil_if_empty}

-- The commands of a client that is connected reach the server.
abbrev pub Connected : Mode → Type 0
Connected (cluster addrs) = Unit
Connected (single address) = Unit
Connected uninitialized = ⊥

abbrev pub client : Mode → String → RedisClient
client mode prefix = record { mode = mode; prefix = prefix }

pub send_up :
    {V F S : Type 0} (srv : Server V F S) (mode : Mode) (prefix : String) (k : Kind)
    → (cmd : Command V F k) (s : S) → Connected mode
    → send srv (client mode prefix) cmd s ≡ srv.run k cmd s
unfolding send
send_up srv (cluster addrs) prefix k cmd s up = refl
send_up srv (single address) prefix k cmd s up = refl
send_up srv uninitialized prefix k cmd s up = absurd up

answered_value :
    {S : Type 0} (r : Outcome ℤ × S) (s' : S)
    → Path (Outcome (Unit {0}) × S) (then_value ignored r.0, r.1) (value tt, s')
    → (n : ℤ) × (r.0 ≡ value n) × (r.1 ≡ s')
answered_value {S} (value n, s) s' e = (n, refl, ap (λ (p : Outcome (Unit {0}) × S). p.1) e)
answered_value (absent, s) s' e = cc
answered_value (failed x, s) s' e = cc
answered_value (panics, s) s' e = cc

module _ {V F S : Type 0} (srv : Server V F S) (mode : Mode) (prefix : String)
    (up : Connected mode) where
  pub h_get_up :
      (key h : String) (s : S)
      → (h_get srv (client mode prefix) key h s).0
        ≡ then_value nil_if_empty (val_or "" (srv.run text (h_get_command (prefix +++ key) h) s).0)
  unfolding h_get
  h_get_up key h s = rw (send_up srv mode prefix text (h_get_command (prefix +++ key) h) s up) refl

  pub h_set_up :
      (key h j : String) (s : S) (n : ℤ)
      → (srv.run number (h_set_command (prefix +++ key) (encoded h) (encoded j)) s).0 ≡ value n
      → h_set srv (client mode prefix) key (encoded h) (encoded j) s
        ≡ (value tt, (srv.run number (h_set_command (prefix +++ key) (encoded h) (encoded j)) s).1)
  unfolding h_set
  h_set_up key h j s n e =
      rw
        (
          send_up srv mode prefix number (h_set_command (prefix +++ key) (encoded h) (encoded j)) s
              up,
          e,
        )
        refl

  pub h_set_done :
      (key h j : String) (s s' : S)
      → h_set srv (client mode prefix) key (encoded h) (encoded j) s ≡ (value tt, s')
      → (n : ℤ) × ((srv.run number (h_set_command (prefix +++ key) (encoded h) (encoded j)) s).0
          ≡ value n)
        × ((srv.run number (h_set_command (prefix +++ key) (encoded h) (encoded j)) s).1 ≡ s')
  unfolding h_set
  h_set_done key h j s s' set =
      let command = h_set_command (prefix +++ key) (encoded h) (encoded j) in
      answered_value (srv.run number command s) s'
        (rw (send_up srv mode prefix number command s up) at set)
