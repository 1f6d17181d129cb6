-- ===== src/Client/Start.antt =====
-- pkg/p2p/client.go: `Connect` with its errors.
use p_and_pp.Base.{◌≡◌, refl, String, [], false, ◌⊎◌, inl, inr}
use Prim.Native.String.{◌++◌}
use p_and_pp.Base.Results.{Result, ok, err, ◌>>=◌, wrap}
use p_and_pp.Transport
use p_and_pp.Transport.Dial
use p_and_pp.Transport.Dial.{default_config}
use p_and_pp.Client.{Client, connect}

module _ {U : Type 0} (parse : String → Result U) (dial : U → Result (Unit {0})) where
  unfoldable pub connect_to : String → Result Client
  connect_to url = do
    t ← wrap "connect to server" (
        Dial.connect parse dial (default_config url)
          (Transport.set_peer_handler (Transport.set_handler Transport.new_web_socket_client)))
    ok (record { transport = t; has_handler = false; has_peer_handler = false; peers = [] })

  -- The server can be reached at a URL.
  abbrev pub CanReach : String → Type 0
  CanReach url = (u : U) × (parse url ≡ ok u) × (dial u ≡ ok tt)

  abbrev Outcome : String → Type 0
  Outcome url =
      (CanReach url × (connect_to url ≡ ok connect))
      ⊎ (¬ CanReach url × (e : String) × (connect_to url ≡ err e))

  -- Where the URL parses and the dialler connects, the client is the connected one with both handlers;
  -- else there is an error.
  pub connect_to-cases : (url : String) → Outcome url
  unfolding connect_to Dial.connect default_config connect
  connect_to-cases url = by_parse (parse url) refl
    where
      by_dial : (u : U) (d : Result (Unit {0})) → parse url ≡ ok u → dial u ≡ d → Outcome url
      by_dial u (ok done) p d = inl ((u, p, d), rw (p, d) refl)
      by_dial u (err e) p d = inr (
        (λ (v, q, there). cc (p, d, q, there)),
        "connect to server" ++ ": " ++ ("dial websocket" ++ ": " ++ e),
        rw (p, d) refl,
      )

      by_parse : (p : Result U) → parse url ≡ p → Outcome url
      by_parse (ok u) p = by_dial u (dial u) p refl
      by_parse (err e) p = inr (
        (λ (v, q, there). cc (p, q)),
        "connect to server" ++ ": " ++ ("parse server URL" ++ ": " ++ e),
        rw p refl,
      )
