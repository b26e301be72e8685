-- ===== src/Probe.antt =====
-- crates/warp-masque/examples/egress_probe.rs: a DNS question sent through the tunnel, and the reply.
--
-- What the tunnel's `recv_ip` gives within the 3 seconds of an attempt is a list; the end of the list is
-- the end of the time. What is printed is the result.
pub mod Checksum
pub mod Packet
pub mod Reply
pub mod Bounds
pub mod Sent
pub mod Extract
pub mod Name
pub mod Answers
pub mod Message
pub mod Run
pub mod Egress
mod Tests
use warp_proxy.Base.{
  ℕ, ◌/◌, Bool, true, false, List, [], ◌∷◌, ◌++◌, Option, none, some, map, not, ◌&&◌,
}
use warp_proxy.Base.{leb, ltb, ◌==◌, if◌then◌else◌, length}
use warp_proxy.Base.Text.{text, same}
use warp_proxy.Config.{WarpConfig}
use warp_proxy.Registration.{Outcome, ok, err, Error, then_try}
use warp_proxy.Identity.{Crypto, ClientConfig, from_private_b64}
use warp_proxy.Pool.{Transport, http3, http2}
use warp_proxy.Dial.{Net, Tunnel, connect_with}
use warp_proxy.Probe.Packet.{Checked, panic, done, build_dns_txt_query, build_ipv4_udp, extract_udp}
use warp_proxy.Probe.Reply.{parse_first_txt}

abbrev pub resolver : List ℕ
resolver = 1 ∷ 1 ∷ 1 ∷ 1 ∷ []

abbrev pub src_port : ℕ
src_port = 40000

abbrev pub class_ch : ℕ
class_ch = 3

-- The arguments: the path and the transport.
pub probe_args : List (List ℕ) → List ℕ × Transport → List ℕ × Transport
probe_args [] (path, transport) = (path, transport)
probe_args (arg ∷ args) (path, transport) =
    if same arg (text "--http2")
    then probe_args args (path, http2)
    else probe_args args (arg, transport)

-- What a call of `recv_ip` returns: a packet, or an error.
pub data Arrival : Type 0 where
  ip : List ℕ → Arrival
  broken : Arrival

pub record Attempt : Type 0 where
  pub sends : Bool
  pub arrivals : List Arrival

-- How the wait for a reply ends.
pub data Wait : Type 0 where
  replied : List ℕ → Wait
  failed elapsed crashed : Wait

unfoldable pub recv_udp_from : List Arrival → List ℕ → ℕ → Wait
recv_udp_from [] src port = elapsed
recv_udp_from (broken ∷ arrivals) src port = failed
recv_udp_from (ip pkt ∷ arrivals) src port =
    let again = recv_udp_from arrivals src port in
    elim (extract_udp pkt src port) [
      | panic ↦ crashed
      | done none ↦ again
      | done (some payload) ↦ replied payload
    ]

-- How the program ends.
pub data Probed : Type 0 where
  egress : List ℕ → Probed
  round_trip : ℕ → Probed
  no_reply send_error aborted : Probed
  not_up : ℕ → Probed
  error : Error → Probed

unfoldable pub report : (List ℕ → List ℕ) → List ℕ → Probed
report from_utf8_lossy payload = elim (parse_first_txt from_utf8_lossy payload) [
  | panic ↦ aborted
  | done none ↦ round_trip (length payload)
  | done (some txt) ↦ egress txt
]

-- The loop over the attempts: how it ends, and the packets that were sent.
unfoldable pub probe_loop : (List ℕ → List ℕ) → List ℕ → List Attempt → Probed × List (List ℕ)
unfolding recv_udp_from report
probe_loop lossy packet [] = (no_reply, [])
probe_loop lossy packet (a ∷ attempts) =
    let (end, sent) = probe_loop lossy packet attempts in
    if not a.sends then (send_error, []) else (elim (recv_udp_from a.arrivals resolver 53) [
      | replied payload ↦ (report lossy payload, packet ∷ [])
      | crashed ↦ (aborted, packet ∷ [])
      | _ ↦ (end, packet ∷ sent)
    ])

-- `StatusCode::is_success`
unfoldable pub status_is_success : ℕ → Bool
status_is_success status = status / 100 == 2

-- The packet that every attempt sends.
unfoldable pub question : List ℕ → List ℕ
unfolding build_dns_txt_query build_ipv4_udp
question src =
    build_ipv4_udp src resolver src_port 53
      (build_dns_txt_query 0xBEEF (text "whoami.cloudflare") class_ch)

-- `main` behind the dial: the check of the status and the loop. What the tunnel does in an attempt
-- enters as `attempt`.
unfoldable pub probe_through :
    (List ℕ → List ℕ) → (Tunnel → ℕ → Attempt) → Outcome Tunnel → Probed × List (List ℕ)
unfolding probe_loop status_is_success question
probe_through lossy attempt (err e) = (error e, [])
probe_through lossy attempt (ok tunnel) =
    if not (status_is_success tunnel.status)
    then (not_up tunnel.status, [])
    else probe_loop lossy (question tunnel.assigned_v4) (map (attempt tunnel) (1 ∷ 2 ∷ 3 ∷ 4 ∷ []))

module _ (C : Crypto) (N : Net (ClientConfig C)) (now : ℕ) where
  -- `WarpConfig::load` enters as `load`.
  unfoldable pub dial_args : (List ℕ → Outcome WarpConfig) → List ℕ × Transport → Outcome Tunnel
  unfolding then_try
  dial_args load (path, transport) = then_try (load path) (λ cfg.
      then_try (from_private_b64 C cfg.private_key) (λ kp. connect_with C N now cfg kp transport))

  unfoldable pub main :
      (List ℕ → Outcome WarpConfig)
      → (List ℕ → List ℕ)
      → (Tunnel → ℕ → Attempt)
      → List (List ℕ)
      → Probed × List (List ℕ)
  unfolding probe_args dial_args probe_through
  main load lossy attempt args =
      probe_through lossy attempt
        (dial_args load (probe_args args (text "warp-config.json", http3)))
