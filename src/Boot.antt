-- ===== src/Boot.antt =====
-- The main functions of the three services, and apps/ocpp-core/internal/db/db.go: how a process
-- starts, step by step, up to the point where it serves, and what it does behind the signal that
-- ends it. log.Fatalf ends the process, so a start is a chain of fallible steps; other log lines are
-- not modelled. What third-party code reports is an argument.
pub mod Ends
pub mod FirstLink
pub mod CoreService
pub mod ProcessorService
pub mod GatewayService
pub mod Tests
use ocpp_simulator.Base.{String, Bool, ◌==◌, Option, none, some, if◌then◌else◌}
use ocpp_simulator.Mqtt.{PahoBroker}
use ocpp_simulator.Result.{Error, Result, ok, err, wrap, ◌>>=◌, ◌>>◌}

-- envOr
unfoldable pub env_or : (String → String) → String → String → String
env_or getenv key fallback = let v = getenv key in if v == "" then fallback else v

-- if err != nil { return fmt.Errorf("text: %w", err) }
abbrev pub checked : String → Option Error → Result (Unit {0})
checked s (some e) = err (wrap s e)
checked s none = ok tt

-- A step that answers an error or a value, on a state.
abbrev pub with_state {ℓ} : {A S : Type ℓ} → String → Result A × S → Result (A × S)
with_state s (err e, state) = err (wrap s e)
with_state s (ok a, state) = ok (a, state)

-- The client behind Connect. Where its token reports an error the client retries in the background,
-- and what IsConnected reports then is an argument.
abbrev pub link_behind : {H : Type 0} → Bool → Option Error × PahoBroker H → PahoBroker H
link_behind retrying (none, b) = b
link_behind retrying (some e, b) = record b { is_connected = retrying }

-- Open, over sql.Open
unfoldable pub open_db : (String → Option Error) → String → Result (Unit {0})
open_db sql_open conn_str = checked "open db" (sql_open conn_str)

-- Migrate, over what goose reports for the dialect and the migrations
unfoldable pub migrate : Option Error → Option Error → Result (Unit {0})
migrate dialect up = do checked "goose dialect" dialect; checked "goose up" up
