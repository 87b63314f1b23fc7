-- ===== src/Server/Connections.antt =====
-- The connections of gateway/websocket.go, one goroutine for each: HandleWebSocket from the upgrade to the
-- deferred UnsubscribeAll. A client's number is that of its connection.
pub mod Leaks
use distributed_game_of_life.Prelude.{ℕ, Bool, true, false, List, [], ◌∷◌, Option, none, some}
use distributed_game_of_life.Prelude.Update.{write}
use Prim.Native.String.{String}
use distributed_game_of_life.Simulation.TickAll.Ticks.{Round}
use distributed_game_of_life.Ratelimit.{Redis}
use distributed_game_of_life.Storage.{Backend}
use distributed_game_of_life.Gateway.Router.{Command, Moment}
use distributed_game_of_life.Server.{System, ticked, received, closed, step}

-- A connection before its upgrade, in its read loop, with the remote address of its request, and after its
-- handler has returned.
pub data Connection : Type 0 where
  unopened gone : Connection
  opened : String → Connection

-- `Bytes` is the type of what ReadMessage returns, and `unmarshal` what json.Unmarshal makes of it.
module _ (backend : Backend) (redis : Redis) (fails : ℕ → ℕ → Bool) (Bytes : Type 0)
    (unmarshal : Bytes → Option Command) where
  -- The server with its connections.
  pub record Site : Type 0 where
    pub system : System backend redis fails
    pub connections : ℕ → Connection

  -- What happens next: the ticker fires, Upgrade has answered for a request from an address, or ReadMessage
  -- has returned bytes, or `none` for an error.
  pub data Happening : Type 0 where
    ticking : Round → Happening
    upgraded : ℕ → String → Bool → Happening
    read : ℕ → (ℕ → Moment) → Option Bytes → Happening

  -- The start of HandleWebSocket.
  unfoldable pub open_connection : ℕ → String → Bool → Connection → Site → Site
  open_connection c addr true unopened s = record s {
    connections = write c (opened addr) s.connections;
  }
  open_connection c addr _ _ s = s

  -- One round of the read loop, and the deferred calls when it ends.
  unfoldable pub read_message : ℕ → (ℕ → Moment) → Option Bytes → Connection → Site → Site
  unfolding step
  read_message c moments (some bytes) (opened addr) s = record s {
    system = step backend redis fails (received moments addr c (unmarshal bytes)) s.system;
  }
  read_message c moments none (opened addr) s = record s {
    system = step backend redis fails (closed c) s.system;
    connections = write c gone s.connections;
  }
  read_message c moments _ _ s = s

  unfoldable pub happen : Happening → Site → Site
  unfolding step open_connection read_message
  happen (ticking round) s = record s { system = step backend redis fails (ticked round) s.system }
  happen (upgraded c addr ok) s = open_connection c addr ok (s.connections c) s
  happen (read c moments bytes) s = read_message c moments bytes (s.connections c) s

  unfoldable pub happen_all : List Happening → Site → Site
  unfolding happen
  happen_all [] s = s
  happen_all (h ∷ hs) s = happen_all hs (happen h s)
