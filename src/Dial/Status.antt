-- ===== src/Dial/Status.antt =====
-- The status of the response to the CONNECT request.
use warp_proxy.Base.{ℕ, ◌≡◌, ap, ◌∙◌, List, some}
use warp_proxy.Config.{WarpConfig}
use warp_proxy.Registration.{ok, or_err, then_try}
use warp_proxy.Registration.Outcomes.{then_try-ok, ok-injective}
use warp_proxy.Identity.{Crypto, ClientConfig}
use warp_proxy.Pool.{Transport, http3, http2}
use warp_proxy.Dial.{
  Net, TunnelIo, h3, h2, Tunnel, parse_assigned_v4, parse_assigned_v6, from_parts, open_h3, open_h2,
  connect_h3, connect_h2, connect_with, dial_quic, quic_endpoint, h2_endpoint,
}
use warp_proxy.Tunnel.{quarter_stream_id_of}

-- The network, where the endpoint answers the CONNECT request with the status `status`.
abbrev pub respond : {T : Type 0} → ℕ → Net T → Net T
respond status N = record N {
  h3_recv_response = λ stream. some status;
  h2_response = λ stream. some status;
}

module _ (C : Crypto) (N : Net (ClientConfig C)) (now : ℕ) where
  from_parts-any_status :
      (cfg : WarpConfig) (tunnel_io : TunnelIo) (s s' : ℕ) (t : Tunnel)
      → from_parts C (respond s N) now cfg tunnel_io s ≡ ok t
      → from_parts C (respond s' N) now cfg tunnel_io s' ≡ ok (record t { status = s' })
  unfolding from_parts parse_assigned_v4 parse_assigned_v6 then_try
  from_parts-any_status cfg tunnel_io s s' t e =
      let (a, parsed, made) = then_try-ok (parse_assigned_v4 C N now cfg.ipv4) _ t e in
      let tunnel_with : List ℕ → Tunnel = λ b. record {
        io = tunnel_io;
        status = s';
        assigned_v4 = b;
        assigned_v6 = parse_assigned_v6 C N now cfg.ipv6;
      } in
      let restate : Tunnel → Tunnel = λ u. record u { status = s' } in
      ap (λ r. then_try r (λ b. ok (tunnel_with b))) parsed
      ∙ ap (λ u. ok (restate u)) (ok-injective _ t made)

  connect_h3-any_status :
      (cfg : WarpConfig) (kp : C.Secret) (s s' : ℕ) (t : Tunnel)
      → connect_h3 C (respond s N) now cfg kp ≡ ok t
      → connect_h3 C (respond s' N) now cfg kp ≡ ok (record t { status = s' })
  unfolding connect_h3 open_h3 dial_quic quic_endpoint then_try or_err
  connect_h3-any_status cfg kp s s' t e =
      let (stream, opened, rest) =
        then_try-ok (open_h3 C N now cfg kp)
          (λ st. from_parts C (respond s N) now cfg (h3 (quarter_stream_id_of (N.stream_id st))) s)
          t e in
      ap
        (λ r. then_try r (λ st.
          from_parts C (respond s' N) now cfg (h3 (quarter_stream_id_of (N.stream_id st))) s'))
        opened
      ∙ from_parts-any_status cfg (h3 (quarter_stream_id_of (N.stream_id stream))) s s' t rest

  connect_h2-any_status :
      (cfg : WarpConfig) (kp : C.Secret) (s s' : ℕ) (t : Tunnel)
      → connect_h2 C (respond s N) now cfg kp ≡ ok t
      → connect_h2 C (respond s' N) now cfg kp ≡ ok (record t { status = s' })
  unfolding connect_h2 open_h2 h2_endpoint then_try or_err
  connect_h2-any_status cfg kp s s' t e =
      let (stream, opened, rest) =
        then_try-ok (open_h2 C N now cfg kp) (λ st. from_parts C (respond s N) now cfg h2 s) t e in
      ap (λ r. then_try r (λ st. from_parts C (respond s' N) now cfg h2 s')) opened
      ∙ from_parts-any_status cfg h2 s s' t rest

  -- A dial that succeeds with one status in the endpoint's response succeeds with every status: a CONNECT
  -- request that is refused gives a tunnel, with the refusal as its status.
  pub connect_with-any_status :
      (cfg : WarpConfig) (kp : C.Secret) (transport : Transport) (s s' : ℕ) (t : Tunnel)
      → connect_with C (respond s N) now cfg kp transport ≡ ok t
      → connect_with C (respond s' N) now cfg kp transport ≡ ok (record t { status = s' })
  unfolding connect_with
  connect_with-any_status cfg kp http3 s s' t e = connect_h3-any_status cfg kp s s' t e
  connect_with-any_status cfg kp http2 s s' t e = connect_h2-any_status cfg kp s s' t e
