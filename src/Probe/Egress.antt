-- ===== src/Probe/Egress.antt =====
-- The probe from the question to the address that the resolver names, and what it does on the way.
use warp_proxy.Base.{ℕ, suc, ◌<◌, ◌≡◌, refl, ap, sym, subst, ◌∙◌, arith}
use warp_proxy.Base.{◌⊎◌, inl, inr, true, false, List, [], ◌∷◌, ◌++◌, none, some, map}
use warp_proxy.Base.{length, All, replicate, Bool-cases}
use warp_proxy.Base.Text.{text, split}
use warp_proxy.Registration.{Outcome, ok, err}
use warp_proxy.Dial.{Tunnel}
use warp_proxy.Probe.Packet.{done, extract_udp, build_ipv4_udp}
use warp_proxy.Probe.Name.{IsLabels}
use warp_proxy.Probe.Answers.{Answer, IsAnswer, first_txt, lossy_of}
use warp_proxy.Probe.Message.{reply_bytes, parse_first_txt-reply_bytes}
use warp_proxy.Probe.Run.{
  recv_udp_from-built, report_egress, Silent, probe_loop_found, Careful, probe_loop-Careful,
}
use warp_proxy.Probe.{
  resolver, src_port, Arrival, ip, Attempt, Probed, egress, not_up, error, class_ch, probe_loop,
  status_is_success, question, probe_through,
}

abbrev name : List ℕ
name = text "whoami.cloudflare"

name-IsLabels : IsLabels (split 0x2e name)
unfolding split
name-IsLabels = ((omega arith, omega arith), ((omega arith, omega arith), tt))

-- The resolver's reply to the question, in a UDP datagram to `dst`.
abbrev pub answer_packet : List ℕ → List Answer → List ℕ → List ℕ
answer_packet dst answers rest =
    build_ipv4_udp resolver dst 53 src_port
      (reply_bytes 0xBEEF 0x8180 0 0 name class_ch answers rest)

-- Whatever the tunnel brings before it: the first reply of the resolver ends the loop, in the attempt that
-- it arrives in, with the text of the reply's first TXT record.
pub probe_loop-answer_packet :
    (lossy : List ℕ → List ℕ) (packet : List ℕ) (before : List Attempt) (noise : List (List ℕ))
    (dst : List ℕ) (answers : List Answer) (t rest : List ℕ) (later : List Arrival)
    (after : List Attempt)
    → All Silent before
    → All (λ pkt. extract_udp pkt resolver 53 ≡ done none) noise
    → length dst ≡ 4
    → All IsAnswer answers
    → length answers < 65536
    → first_txt answers ≡ some t
    → (let a : Attempt = record {
      sends = true;
      arrivals = map ip noise ++ ip (answer_packet dst answers rest) ∷ later;
    } in
        probe_loop lossy packet (before ++ a ∷ after)
        ≡ (egress (lossy t), replicate (suc (length before)) packet))
unfolding lossy_of
probe_loop-answer_packet lossy packet before noise dst answers t rest later after silent other four
      answers_ok few e =
    let payload = reply_bytes 0xBEEF 0x8180 0 0 name class_ch answers rest in
    let a : Attempt = record {
      sends = true;
      arrivals = map ip noise ++ ip (answer_packet dst answers rest) ∷ later;
    } in
    let found =
      recv_udp_from-built noise resolver dst payload 53 src_port later other refl four
        (omega arith) in
    let read =
      parse_first_txt-reply_bytes 0xBEEF 0x8180 0 0 lossy name class_ch answers rest name-IsLabels
        answers_ok few in
    probe_loop_found lossy packet payload before a after silent refl found
    ∙ ap (λ end. (end, replicate (suc (length before)) packet))
        (report_egress lossy payload (lossy t) (rw e at read))

-- A run by a tunnel that is up: the question from its own address is sent, and nothing else, four
-- times at most.
abbrev pub Asks : Tunnel → Probed × List (List ℕ) → Type 0
Asks tunnel run =
    (status_is_success tunnel.status ≡ true) × Careful (question tunnel.assigned_v4) 4 run

probe_up :
    (lossy : List ℕ → List ℕ) (attempt : Tunnel → ℕ → Attempt) (tunnel : Tunnel)
    → status_is_success tunnel.status ≡ true
    → probe_through lossy attempt (ok tunnel)
      ≡ probe_loop lossy (question tunnel.assigned_v4) (map (attempt tunnel) (1 ∷ 2 ∷ 3 ∷ 4 ∷ []))
unfolding probe_through
probe_up lossy attempt tunnel e = rw (probe_through, e) refl

probe_down :
    (lossy : List ℕ → List ℕ) (attempt : Tunnel → ℕ → Attempt) (tunnel : Tunnel)
    → status_is_success tunnel.status ≡ false
    → probe_through lossy attempt (ok tunnel) ≡ (not_up tunnel.status, [])
unfolding probe_through
probe_down lossy attempt tunnel e = rw (probe_through, e) refl

-- How the program ends for what its dial gave.
abbrev pub EndsAs : Outcome Tunnel → Probed × List (List ℕ) → Type 0
EndsAs (err e) run = run ≡ (error e, [])
EndsAs (ok tunnel) run = (run ≡ (not_up tunnel.status, [])) ⊎ Asks tunnel run

-- Whatever the dial and the tunnel do: the probe sends nothing unless it has a tunnel that is up, and then
-- nothing but the question from the tunnel's address, four times at most, and it does not panic; it
-- reports the error of a dial that fails and the status of a tunnel that is not up.
pub probe_through-EndsAs :
    (lossy : List ℕ → List ℕ) (attempt : Tunnel → ℕ → Attempt) (dialled : Outcome Tunnel)
    → EndsAs dialled (probe_through lossy attempt dialled)
unfolding probe_through
probe_through-EndsAs lossy attempt (err e) = refl
probe_through-EndsAs lossy attempt (ok tunnel) =
    elim (Bool-cases (status_is_success tunnel.status)) [
      | inr down ↦ inl (probe_down lossy attempt tunnel down)
      | inl up ↦
          let asked = question tunnel.assigned_v4 in
          let careful =
            probe_loop-Careful lossy asked (map (attempt tunnel) (1 ∷ 2 ∷ 3 ∷ 4 ∷ [])) in
          inr (up, subst (Careful asked 4) (sym (probe_up lossy attempt tunnel up)) careful)
    ]
