-- ===== src/Transport/Dial.antt =====
-- pkg/p2p/transport/websocket.go: the configuration, and `Connect`. The parser of a URL and the dialler
-- are parameters; times are in seconds.
use p_and_pp.Base.{ℕ, String, true}
use p_and_pp.Base.Results.{Result, ok, ◌>>=◌, wrap}
use p_and_pp.Transport.{WebSocketClient}

pub record Config : Type 0 where
  pub server_url : String
  pub reconnect_delay : ℕ
  pub ping_interval : ℕ

unfoldable pub default_config : String → Config
default_config url = record { server_url = url; reconnect_delay = 5; ping_interval = 30 }

-- `Connect`, up to the start of the pumps, which Transport/Life is about.
unfoldable pub connect :
    {U : Type 0}
    → (String → Result U)
    → (U → Result (Unit {0}))
    → Config
    → WebSocketClient
    → Result WebSocketClient
connect parse dial config c = do
  u ← wrap "parse server URL" (parse config.server_url)
  conn ← wrap "dial websocket" (dial u)
  ok (record c { connected = true })

unfoldable pub my_id : WebSocketClient → String
my_id c = c.my_id
