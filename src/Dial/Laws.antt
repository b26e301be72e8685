-- ===== src/Dial/Laws.antt =====
-- What a dial that succeeds has done.
use warp_proxy.Base.{ℕ, ◌≡◌, List, [], ◌∷◌, some}
use warp_proxy.Base.Text.{text}
use warp_proxy.Config.{WarpConfig}
use warp_proxy.Socks.{IpAddr}
use warp_proxy.Registration.{Outcome, ok, or_err, tunnel, io}
use warp_proxy.Registration.Outcomes.{then_try-ok, or_err-ok}
use warp_proxy.Identity.{Crypto, ClientConfig, tunnel_client_config}
use warp_proxy.Identity.Laws.{Configured, tunnel_client_config-Configured}
use warp_proxy.Pool.{Transport, http3, http2}
use warp_proxy.Dial.{
  Net, Tunnel, connect_sni, quic_options, open_h3, open_h2, connect_h3, connect_h2, connect_with,
  dial_quic, quic_endpoint, bind_address, h2_endpoint,
}

module _ (C : Crypto) (N : Net (ClientConfig C)) (now : ℕ) where
  -- The handshake, with the configuration `client` and the server name of the tunnel, to `addr`.
  pub record QuicHandshake (client : ClientConfig C) (addr : IpAddr × ℕ) : Type 0 where
    pub client_cfg : N.QuicConfig
    pub socket : ℕ
    pub endpoint : N.Endpoint
    pub quic : N.Quic
    pub configured : N.quic_config client ≡ some client_cfg
    pub bound : N.bind (bind_address C N now addr.0) ≡ some socket
    pub made : N.endpoint quic_options socket client_cfg ≡ some endpoint
    pub connected : N.quic_connect endpoint addr connect_sni ≡ some quic

  pub record TlsHandshake (client : ClientConfig C) (addr : IpAddr × ℕ) : Type 0 where
    pub tcp : N.Tcp
    pub name : List ℕ
    pub tls : N.TlsStream
    pub reached : N.tcp_connect addr ≡ some tcp
    pub named : N.server_name connect_sni ≡ some name
    pub connected : N.tls_connect client name tcp ≡ some tls

  -- The protocol, the endpoint and the handshake of a transport.
  pub protocol : Transport → List ℕ
  protocol http3 = text "h3"
  protocol http2 = text "h2"

  pub endpoint_of : Transport → WarpConfig → Outcome (IpAddr × ℕ)
  endpoint_of http3 cfg = quic_endpoint C N now cfg
  endpoint_of http2 cfg = h2_endpoint C N now cfg

  pub Handshake : Transport → ClientConfig C → IpAddr × ℕ → Type 0
  Handshake http3 = QuicHandshake
  Handshake http2 = TlsHandshake

  pub record Dialled (cfg : WarpConfig) (kp : C.Secret) (transport : Transport) : Type 0 where
    pub client : ClientConfig C
    pub addr : IpAddr × ℕ
    pub at_endpoint : endpoint_of transport cfg ≡ ok addr
    pub configured : Configured C now cfg kp (protocol transport ∷ []) client
    pub handshake : Handshake transport client addr

  dial_quic-Dialled :
      (cfg : WarpConfig) (kp : C.Secret) (quic : N.Quic)
      → dial_quic C N now cfg kp ≡ ok quic
      → Dialled cfg kp http3
  unfolding dial_quic endpoint_of protocol Handshake
  dial_quic-Dialled cfg kp quic e =
      let (addr, at_addr, e1) = then_try-ok (quic_endpoint C N now cfg) _ quic e in
      let (client, at_client, e2) =
        then_try-ok (tunnel_client_config C now cfg kp (text "h3" ∷ [])) _ quic e1 in
      let (client_cfg, at_cfg, e3) = then_try-ok (or_err tunnel (N.quic_config client)) _ quic e2 in
      let (idle, at_idle, e4) = then_try-ok (or_err tunnel (N.idle_timeout 30)) _ quic e3 in
      let (socket, at_socket, e5) =
        then_try-ok (or_err io (N.bind (bind_address C N now addr.0))) _ quic e4 in
      let (endpoint, at_endpoint, e6) =
        then_try-ok (or_err tunnel (N.endpoint quic_options socket client_cfg)) _ quic e5 in
      record {
        client = client;
        addr = addr;
        at_endpoint = at_addr;
        configured = tunnel_client_config-Configured C now cfg kp (text "h3" ∷ []) client at_client;
        handshake = record {
          client_cfg = client_cfg;
          socket = socket;
          endpoint = endpoint;
          quic = quic;
          configured = or_err-ok tunnel _ client_cfg at_cfg;
          bound = or_err-ok io _ socket at_socket;
          made = or_err-ok tunnel _ endpoint at_endpoint;
          connected = or_err-ok tunnel _ quic e6;
        };
      }

  open_h2-Dialled :
      (cfg : WarpConfig) (kp : C.Secret) (stream : N.Stream)
      → open_h2 C N now cfg kp ≡ ok stream
      → Dialled cfg kp http2
  unfolding open_h2 endpoint_of protocol Handshake
  open_h2-Dialled cfg kp stream e =
      let (addr, at_addr, e1) = then_try-ok (h2_endpoint C N now cfg) _ stream e in
      let (tcp, at_tcp, e2) = then_try-ok (or_err io (N.tcp_connect addr)) _ stream e1 in
      let (client, at_client, e3) =
        then_try-ok (tunnel_client_config C now cfg kp (text "h2" ∷ [])) _ stream e2 in
      let (name, at_name, e4) =
        then_try-ok (or_err tunnel (N.server_name connect_sni)) _ stream e3 in
      let (tls, at_tls, e5) =
        then_try-ok (or_err tunnel (N.tls_connect client name tcp)) _ stream e4 in
      record {
        client = client;
        addr = addr;
        at_endpoint = at_addr;
        configured = tunnel_client_config-Configured C now cfg kp (text "h2" ∷ []) client at_client;
        handshake = record {
          tcp = tcp;
          name = name;
          tls = tls;
          reached = or_err-ok io _ tcp at_tcp;
          named = or_err-ok tunnel _ name at_name;
          connected = or_err-ok tunnel _ tls at_tls;
        };
      }

  -- A tunnel that is dialled stands on a handshake with the endpoint of its configuration, under the
  -- server name of the tunnel and the protocol of its transport, by a client that pins the key of the
  -- configuration and presents the identity of the device.
  pub connect_with-Dialled :
      (cfg : WarpConfig) (kp : C.Secret) (transport : Transport) (t : Tunnel)
      → connect_with C N now cfg kp transport ≡ ok t
      → Dialled cfg kp transport
  unfolding connect_with connect_h3 connect_h2 open_h3
  connect_with-Dialled cfg kp http3 t e =
      let (stream, opened, rest) = then_try-ok (open_h3 C N now cfg kp) _ t e in
      let (quic, dialled, more) = then_try-ok (dial_quic C N now cfg kp) _ stream opened in
      dial_quic-Dialled cfg kp quic dialled
  connect_with-Dialled cfg kp http2 t e =
      let (stream, opened, rest) = then_try-ok (open_h2 C N now cfg kp) _ t e in
      open_h2-Dialled cfg kp stream opened
