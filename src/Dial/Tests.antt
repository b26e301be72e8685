-- ===== src/Dial/Tests.antt =====
-- A network where every call succeeds.
use warp_proxy.Base.{ℕ, true, ◌+◌, ◌≡◌, refl, [], ◌∷◌, some}
use warp_proxy.Config.{WarpConfig, strip_v4_port, strip_v6_brackets}
use warp_proxy.Registration.{ok, or_err, then_try}
use warp_proxy.Identity.{
  ClientConfig, tunnel_client_config, from_private_b64, private_b64, public_spki_b64,
}
use warp_proxy.Identity.Tests.{toy_crypto, toy_RoundTrips}
use warp_proxy.Pool.{http2}
use warp_proxy.Dial.{
  Net, Tunnel, connect_with, connect_h2, open_h2, h2_endpoint, or_default, from_parts,
  parse_assigned_v4, parse_assigned_v6, first_part,
}
use warp_proxy.Dial.Laws.{Dialled, connect_with-Dialled}
use warp_proxy.Identity.Laws.{from_private_b64-private_b64}
use warp_proxy.Dial.Device.{keyed, dial_config, SameDevice, dial_config-SameDevice}
use warp_proxy.Registration.{default_options, and_then, is_success}
use warp_proxy.Registration.Client.{
  Session, register, create_account, enroll, enroll_key, send_json, decode, build_config,
  first_peer,
}
use warp_proxy.Registration.Client.Tests.{toy, the_config}
use warp_proxy.Dial.Status.{respond, connect_with-any_status}

abbrev toy_net : Net (ClientConfig toy_crypto)
toy_net = record {
  QuicConfig = ℕ;
  Endpoint = ℕ;
  Quic = ℕ;
  Requests = ℕ;
  Stream = ℕ;
  Tcp = ℕ;
  TlsStream = ℕ;
  parse_v4 = λ t. some (1 ∷ 2 ∷ 3 ∷ 4 ∷ []);
  parse_v6 = λ t. some [];
  quic_config = λ tls. some 0;
  idle_timeout = λ secs. some secs;
  bind = λ addr. some 0;
  endpoint = λ options socket client_cfg. some 0;
  quic_connect = λ endpoint addr sni. some 0;
  h3_build = λ quic. some 0;
  build = λ req. some req;
  h3_send_request = λ requests req. some 0;
  h3_recv_response = λ stream. some 200;
  stream_id = λ stream. 0;
  tcp_connect = λ addr. some 0;
  server_name = λ name. some name;
  tls_connect = λ tls name tcp. some 0;
  h2_handshake = λ tls. some 0;
  h2_send_request = λ requests req. some 0;
  h2_response = λ stream. some 200;
}

abbrev a_config : WarpConfig
a_config = record {
  private_key = [];
  endpoint_v4 = [];
  endpoint_v6 = [];
  endpoint_h2_v4 = [];
  endpoint_h2_v6 = [];
  endpoint_pub_key = [];
  id = [];
  access_token = [];
  ipv4 = [];
  ipv6 = [];
}

-- The tunnel over HTTP/2, behind a response with the status `s`.
dials :
    (s : ℕ)
    → (t : Tunnel) × (connect_with toy_crypto (respond s toy_net) 5000 a_config 7 http2 ≡ ok t)
unfolding connect_with connect_h2 open_h2 h2_endpoint or_default from_parts parse_assigned_v4
    parse_assigned_v6 first_part tunnel_client_config then_try or_err
dials s = (_, refl)

connect_with-Dialled_example : Dialled toy_crypto (respond 200 toy_net) 5000 a_config 7 http2
connect_with-Dialled_example =
    connect_with-Dialled toy_crypto (respond 200 toy_net) 5000 a_config 7 http2 (dials 200).0
      (dials 200).1

connect_with-any_status_example :
    connect_with toy_crypto (respond 403 toy_net) 5000 a_config 7 http2
    ≡ ok (record (dials 200).0 { status = 403 })
connect_with-any_status_example =
    connect_with-any_status toy_crypto toy_net 5000 a_config 7 http2 200 403 (dials 200).0
      (dials 200).1

abbrev numbered : toy.World → ℕ × toy.World
numbered w = (w, w + 1)

-- The configuration of a registration with number keys, and its tunnel.
abbrev device_config : WarpConfig
device_config = record the_config { private_key = 0x10004 ∷ [] }

abbrev device_session : Session (keyed toy_crypto toy numbered)
device_session = record { world = 0; sent = [] }

abbrev device_after : Session (keyed toy_crypto toy numbered)
device_after = (register (keyed toy_crypto toy numbered) true default_options device_session).1

device_registers :
    register (keyed toy_crypto toy numbered) true default_options device_session
    ≡ (ok device_config, device_after)
unfolding register create_account enroll enroll_key send_json decode build_config and_then then_try
    or_err is_success first_peer strip_v4_port strip_v6_brackets public_spki_b64 private_b64
device_registers = refl

device_key : from_private_b64 toy_crypto device_config.private_key ≡ ok 4
unfolding private_b64 then_try or_err
device_key = from_private_b64-private_b64 toy_crypto toy_RoundTrips 4 (0x10004 ∷ []) refl

device_dials : (t : Tunnel) × (connect_with toy_crypto toy_net 5000 device_config 4 http2 ≡ ok t)
unfolding connect_with connect_h2 open_h2 h2_endpoint or_default from_parts parse_assigned_v4
    parse_assigned_v6 first_part tunnel_client_config then_try or_err
device_dials = (_, refl)

device_tunnel : dial_config toy_crypto toy_net 5000 device_config http2 ≡ ok device_dials.0
unfolding dial_config then_try
device_tunnel = rw (dial_config, device_key) device_dials.1

dial_config-SameDevice_example :
    SameDevice toy_crypto toy_net 5000 toy numbered true default_options device_session device_after
      device_config http2
dial_config-SameDevice_example =
    dial_config-SameDevice toy_crypto toy_net 5000 toy numbered toy_RoundTrips true default_options
      device_session device_after device_config http2 device_dials.0 device_registers device_tunnel
