-- ===== src/Probe/Tests.antt =====
-- The probe's packets and replies at concrete inputs.
use warp_proxy.Base.{◌≢◌, All, ℕ, ◌-◌, ◌≡◌, refl, arith, inr, true, List, [], ◌∷◌, ◌++◌, none}
use warp_proxy.Base.{replicate}
use warp_proxy.Base.Text.{text, split, same}
use warp_proxy.Registration.{ok}
use warp_proxy.Dial.{Tunnel, h2}
use warp_proxy.Probe.Checksum.{checksum, add_words, fold_carries}
use warp_proxy.Probe.Packet.{done, extract_udp, build_ipv4_udp, build_dns_txt_query, name_bytes}
use warp_proxy.Probe.Reply.{stuck, skip_loop, parse_first_txt}
use warp_proxy.Probe.Sent.{Accepted, build_ipv4_udp-Accepted}
use warp_proxy.Probe.Sent.Sums.{IsV4}
use warp_proxy.Probe.Extract.{extract_udp-build_ipv4_udp}
use warp_proxy.Probe.Name.{root, pointer, skip_loop-enough}
use warp_proxy.Probe.Bounds.{IsDone, parse_first_txt-IsDone}
use warp_proxy.Probe.Answers.{Answer, IsAnswer, txt, other, first_txt, lossy_of}
use warp_proxy.Probe.Message.{reply_bytes, parse_first_txt-reply_bytes}
use warp_proxy.Probe.Egress.{answer_packet, probe_loop-answer_packet, EndsAs, probe_through-EndsAs}
use warp_proxy.Probe.{recv_udp_from, resolver, ip, egress, probe_loop, probe_through}

abbrev device : List ℕ
device = 172 ∷ 16 ∷ 0 ∷ 2 ∷ []

-- The header of RFC 1071's worked example sums to ddf2.
checksum_words :
    checksum (0x00 ∷ 0x01 ∷ 0xf2 ∷ 0x03 ∷ 0xf4 ∷ 0xf5 ∷ 0xf6 ∷ 0xf7 ∷ []) ≡ 0xffff - 0xddf2
unfolding checksum add_words fold_carries
checksum_words = refl

question_bytes :
    build_dns_txt_query 0xBEEF (text "a.bc") 3
    ≡ 0xBE ∷ 0xEF ∷ 1 ∷ 0 ∷ 0 ∷ 1 ∷ 0 ∷ 0 ∷ 0 ∷ 0 ∷ 0 ∷ 0 ∷ 1 ∷ 0x61 ∷ 2 ∷ 0x62 ∷ 0x63 ∷ 0 ∷ 0 ∷ 16
      ∷ 0 ∷ 3 ∷ []
unfolding build_dns_txt_query name_bytes split
question_bytes = refl

skip_loop-enough_example :
    (skip_loop 100 (1 ∷ 0x61 ∷ 0 ∷ []) 0 ≢ stuck)
    × (skip_loop 100 (1 ∷ 0x61 ∷ 0 ∷ []) 0 ≡ skip_loop 4 (1 ∷ 0x61 ∷ 0 ∷ []) 0)
skip_loop-enough_example = skip_loop-enough 99 (1 ∷ 0x61 ∷ 0 ∷ []) 0 (omega arith)

device-IsV4 : IsV4 device
device-IsV4 = (refl, (omega arith, (omega arith, (omega arith, (omega arith, tt)))))

resolver-IsV4 : IsV4 resolver
resolver-IsV4 = (refl, (omega arith, (omega arith, (omega arith, (omega arith, tt)))))

build_ipv4_udp-Accepted_example :
    Accepted device resolver (build_ipv4_udp device resolver 40000 53 (1 ∷ 2 ∷ 3 ∷ []))
build_ipv4_udp-Accepted_example =
    build_ipv4_udp-Accepted device resolver (1 ∷ 2 ∷ 3 ∷ []) 40000 53 device-IsV4 resolver-IsV4
      (omega arith, (omega arith, (omega arith, tt))) (omega arith)

parse_first_txt-IsDone_example :
    IsDone (parse_first_txt (λ t. t) (replicate 6 0xff ++ 0 ∷ 1 ∷ replicate 4 0xff))
parse_first_txt-IsDone_example =
    parse_first_txt-IsDone (λ t. t) (replicate 6 0xff ++ 0 ∷ 1 ∷ replicate 4 0xff)

-- An alias by a pointer, then at the alias a text of two characters and a second one.
abbrev two_answers : List Answer
two_answers =
    record {
      labels = [];
      ending = pointer 0 0x0c;
      class = 3;
      ttl = 60;
      rdata = other 5 (1 ∷ 0x62 ∷ 0 ∷ []);
    }
    ∷ record {
      labels = (0x62 ∷ []) ∷ [];
      ending = root;
      class = 1;
      ttl = 70000;
      rdata = txt (0x68 ∷ 0x69 ∷ []) (1 ∷ 0x78 ∷ []);
    }
    ∷ []

two_answers-IsAnswer : All IsAnswer two_answers
two_answers-IsAnswer = (
  (tt, omega arith, (omega arith, λ e. absurd (omega (arith, e)), omega arith)),
  ((((omega arith, omega arith), tt), tt, (omega arith, omega arith)), tt),
)

parse_first_txt-reply_bytes_example :
    parse_first_txt (λ t. t) (reply_bytes 7 0x8180 0 0 (text "a.bc") 3 two_answers (1 ∷ []))
    ≡ done (lossy_of (λ t. t) (first_txt two_answers))
unfolding split
parse_first_txt-reply_bytes_example =
    parse_first_txt-reply_bytes 7 0x8180 0 0 (λ t. t) (text "a.bc") 3 two_answers (1 ∷ [])
      ((omega arith, omega arith), ((omega arith, omega arith), tt)) two_answers-IsAnswer
      (omega arith)

-- An attempt without a packet, and one where the reply comes behind a packet of another port.
abbrev noise : List (List ℕ)
noise = build_ipv4_udp resolver device 54 40000 [] ∷ []

noise_passed : extract_udp (build_ipv4_udp resolver device 54 40000 []) resolver 53 ≡ done none
unfolding same
noise_passed =
    extract_udp-build_ipv4_udp resolver device resolver [] 54 40000 53 refl refl (omega arith)

probe_loop-answer_packet_example :
    probe_loop
      (λ t. t)
      (9 ∷ [])
      (record { sends = true; arrivals = [] }
        ∷ record {
          sends = true;
          arrivals =
              ip (build_ipv4_udp resolver device 54 40000 [])
              ∷ ip (answer_packet device two_answers [])
              ∷ [];
        }
        ∷ [])
    ≡ (egress (0x68 ∷ 0x69 ∷ []), (9 ∷ []) ∷ (9 ∷ []) ∷ [])
unfolding first_txt recv_udp_from
probe_loop-answer_packet_example =
    probe_loop-answer_packet (λ t. t) (9 ∷ []) (record { sends = true; arrivals = [] } ∷ []) noise
      device two_answers (0x68 ∷ 0x69 ∷ []) [] [] [] ((refl, inr refl), tt) (noise_passed, tt) refl
      two_answers-IsAnswer (omega arith) refl

abbrev a_tunnel : Tunnel
a_tunnel = record { io = h2; status = 200; assigned_v4 = device; assigned_v6 = none }

probe_through-EndsAs_example :
    EndsAs
      (ok a_tunnel)
      (probe_through (λ t. t) (λ tunnel n. record { sends = true; arrivals = [] }) (ok a_tunnel))
probe_through-EndsAs_example =
    probe_through-EndsAs (λ t. t) (λ tunnel n. record { sends = true; arrivals = [] }) (ok a_tunnel)
