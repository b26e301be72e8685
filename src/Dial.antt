-- ===== src/Dial.antt =====
-- The dialling of a tunnel: `connect_with` and what it calls in crates/warp-masque/src/tunnel.rs, and
-- `connect_h2` of crates/warp-masque/src/h2tunnel.rs.
--
-- The calls of quinn, h3, h2 and tokio are those of the parameter `Net`: a call that fails is `none`. A
-- socket address is an address with its port.
pub mod Laws
pub mod Status
pub mod Device
mod Tests
use warp_proxy.Base.{ℕ, ◌*◌, ◌/◌, Bool, true, false, not, List, [], ◌∷◌, ◌++◌, Option, none, some}
use warp_proxy.Base.Text.{text, split}
use warp_proxy.Config.{WarpConfig, trim}
use warp_proxy.Socks.{IpAddr, v4, v6}
use warp_proxy.Registration.{Outcome, ok, err, or_err, then_try, Error, config, io, tunnel}
use warp_proxy.Registration.Client.{default_endpoint_h2_v4}
use warp_proxy.Identity.{Crypto, ClientConfig, tunnel_client_config}
use warp_proxy.Tunnel.{quarter_stream_id_of}
use warp_proxy.Pool.{Transport, http3, http2}

abbrev pub masque_port : ℕ
masque_port = 443

abbrev pub connect_sni : List ℕ
connect_sni = text "consumer-masque.cloudflareclient.com"

abbrev pub connect_uri : List ℕ
connect_uri = text "https://cloudflareaccess.com"

-- An HTTP request without a body; `protocol` is the `:protocol` of an extended CONNECT.
pub record Request : Type 0 where
  pub method : List ℕ
  pub uri : List ℕ
  pub headers : List (List ℕ × List ℕ)
  pub protocol : Option (List ℕ)

abbrev pub h3_request : Request
h3_request = record {
  method = text "CONNECT";
  uri = connect_uri;
  headers = (text "capsule-protocol", text "?1") ∷ (text "user-agent", []) ∷ [];
  protocol = some (text "cf-connect-ip");
}

abbrev pub h2_request : Request
h2_request = record {
  method = text "CONNECT";
  uri = connect_uri;
  headers =
      (text "user-agent", [])
      ∷ (text "cf-connect-proto", text "cf-connect-ip")
      ∷ (text "pq-enabled", text "false")
      ∷ (text "capsule-protocol", text "?1")
      ∷ [];
  protocol = none;
}

-- The options of the QUIC transport, in seconds and bytes.
pub record QuicOptions : Type 0 where
  pub keep_alive_interval : ℕ
  pub max_idle_timeout : ℕ
  pub connection_id_len : ℕ

abbrev pub quic_options : QuicOptions
quic_options = record { keep_alive_interval = 15; max_idle_timeout = 30; connection_id_len = 20 }

-- What the two transports use of the libraries, for a client's configuration of type `Tls`.
pub record Net (Tls : Type 0) : Type 1 where
  pub QuicConfig : Type 0
  pub Endpoint : Type 0
  pub Quic : Type 0
  pub Requests : Type 0
  pub Stream : Type 0
  pub Tcp : Type 0
  pub TlsStream : Type 0
  pub parse_v4 : List ℕ → Option (List ℕ)
  pub parse_v6 : List ℕ → Option (List ℕ)
  pub quic_config : Tls → Option QuicConfig
  pub idle_timeout : ℕ → Option ℕ
  pub bind : IpAddr × ℕ → Option ℕ
  pub endpoint : QuicOptions → ℕ → QuicConfig → Option Endpoint
  pub quic_connect : Endpoint → IpAddr × ℕ → List ℕ → Option Quic
  pub h3_build : Quic → Option Requests
  pub build : Request → Option Request
  pub h3_send_request : Requests → Request → Option Stream
  pub h3_recv_response : Stream → Option ℕ
  pub stream_id : Stream → ℕ
  pub tcp_connect : IpAddr × ℕ → Option Tcp
  pub server_name : List ℕ → Option (List ℕ)
  pub tls_connect : Tls → List ℕ → Tcp → Option TlsStream
  pub h2_handshake : TlsStream → Option Requests
  pub h2_send_request : Requests → Request → Option Stream
  pub h2_response : Stream → Option ℕ

-- `TunnelIo`, by what the dial determines of it.
pub data TunnelIo : Type 0 where
  h3 : ℕ → TunnelIo
  h2 : TunnelIo

-- `Tunnel`
pub record Tunnel : Type 0 where
  pub io : TunnelIo
  pub status : ℕ
  pub assigned_v4 : List ℕ
  pub assigned_v6 : Option (List ℕ)

-- `split('/').next()`, which is never `None`.
unfoldable pub first_part : List (List ℕ) → List ℕ
first_part [] = []
first_part (part ∷ parts) = part

module _ (C : Crypto) (N : Net (ClientConfig C)) (now : ℕ) where
  pub quic_endpoint : WarpConfig → Outcome (IpAddr × ℕ)
  quic_endpoint cfg = elim (N.parse_v4 (trim cfg.endpoint_v4)) [
    | some a ↦ ok (v4 a, masque_port)
    | none ↦ elim (N.parse_v6 (trim cfg.endpoint_v6)) [
      | some a ↦ ok (v6 a, masque_port)
      | none ↦ err config
    ]
  ]

  -- The unspecified address in the family of the endpoint, and any port.
  pub bind_address : IpAddr → IpAddr × ℕ
  bind_address (v6 a) = (v6 (0 ∷ 0 ∷ 0 ∷ 0 ∷ 0 ∷ 0 ∷ 0 ∷ 0 ∷ 0 ∷ 0 ∷ 0 ∷ 0 ∷ 0 ∷ 0 ∷ 0 ∷ 0 ∷ []), 0)
  bind_address (v4 a) = (v4 (0 ∷ 0 ∷ 0 ∷ 0 ∷ []), 0)

  pub dial_quic : WarpConfig → C.Secret → Outcome N.Quic
  unfolding quic_endpoint bind_address then_try or_err
  dial_quic cfg kp = then_try (quic_endpoint cfg) (λ addr.
      then_try (tunnel_client_config C now cfg kp (text "h3" ∷ [])) (λ crypto.
        then_try (or_err tunnel (N.quic_config crypto)) (λ client_cfg.
          then_try (or_err tunnel (N.idle_timeout 30)) (λ idle.
            then_try (or_err io (N.bind (bind_address addr.0))) (λ socket.
              then_try (or_err tunnel (N.endpoint quic_options socket client_cfg))
                (λ endpoint. or_err tunnel (N.quic_connect endpoint addr connect_sni)))))))

  pub parse_assigned_v4 : List ℕ → Outcome (List ℕ)
  unfolding first_part or_err split
  parse_assigned_v4 s = or_err config (N.parse_v4 (trim (first_part (split 0x2f (trim s)))))

  pub parse_assigned_v6 : List ℕ → Option (List ℕ)
  unfolding first_part split
  parse_assigned_v6 s = N.parse_v6 (trim (first_part (split 0x2f (trim s))))

  -- The part of both transports behind the response: `Tunnel::from_parts`.
  unfoldable from_parts : WarpConfig → TunnelIo → ℕ → Outcome Tunnel
  unfolding parse_assigned_v4 parse_assigned_v6 then_try
  from_parts cfg tunnel_io status = then_try (parse_assigned_v4 cfg.ipv4) (λ a. ok (record {
    io = tunnel_io;
    status = status;
    assigned_v4 = a;
    assigned_v6 = parse_assigned_v6 cfg.ipv6;
  }))

  -- `connect_h3` up to the response.
  unfoldable open_h3 : WarpConfig → C.Secret → Outcome N.Stream
  unfolding dial_quic then_try or_err
  open_h3 cfg kp = then_try (dial_quic cfg kp) (λ quic.
      then_try (or_err tunnel (N.h3_build quic)) (λ requests.
        then_try (or_err tunnel (N.build h3_request))
          (λ req. or_err tunnel (N.h3_send_request requests req))))

  pub connect_h3 : WarpConfig → C.Secret → Outcome Tunnel
  unfolding open_h3 from_parts then_try or_err
  connect_h3 cfg kp = then_try (open_h3 cfg kp) (λ stream.
      then_try (or_err tunnel (N.h3_recv_response stream))
        (λ status. from_parts cfg (h3 (quarter_stream_id_of (N.stream_id stream))) status))

  -- `trim().is_empty()`, and the address of the HTTP/2 endpoint.
  unfoldable or_default : List ℕ → List ℕ
  or_default [] = default_endpoint_h2_v4
  or_default (c ∷ t) = c ∷ t

  pub h2_endpoint : WarpConfig → Outcome (IpAddr × ℕ)
  unfolding or_default then_try or_err
  h2_endpoint cfg =
      then_try (or_err config (N.parse_v4 (or_default (trim cfg.endpoint_h2_v4))))
        (λ a. ok (v4 a, masque_port))

  -- `connect_h2` up to the response.
  unfoldable open_h2 : WarpConfig → C.Secret → Outcome N.Stream
  unfolding h2_endpoint then_try or_err
  open_h2 cfg kp = then_try (h2_endpoint cfg) (λ ep. then_try (or_err io (N.tcp_connect ep)) (λ tcp.
      then_try (tunnel_client_config C now cfg kp (text "h2" ∷ [])) (λ tls_cfg.
        then_try (or_err tunnel (N.server_name connect_sni)) (λ server_name.
          then_try (or_err tunnel (N.tls_connect tls_cfg server_name tcp)) (λ tls.
            then_try (or_err tunnel (N.h2_handshake tls)) (λ requests.
              then_try (or_err tunnel (N.build h2_request))
                (λ req. or_err tunnel (N.h2_send_request requests req))))))))

  pub connect_h2 : WarpConfig → C.Secret → Outcome Tunnel
  unfolding open_h2 from_parts then_try or_err
  connect_h2 cfg kp = then_try (open_h2 cfg kp) (λ stream.
      then_try (or_err tunnel (N.h2_response stream)) (λ status. from_parts cfg h2 status))

  pub connect_with : WarpConfig → C.Secret → Transport → Outcome Tunnel
  unfolding connect_h3 connect_h2
  connect_with cfg kp http3 = connect_h3 cfg kp
  connect_with cfg kp http2 = connect_h2 cfg kp
