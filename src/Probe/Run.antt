-- ===== src/Probe/Run.antt =====
-- How the probe ends, and what it has sent by then.
use warp_proxy.Base.{ℕ, suc, ◌<◌, ◌≤◌, ◌≡◌, ◌≢◌, refl, ap, sym, ◌∙◌, arith}
use warp_proxy.Base.{◌⊎◌, inl, inr, true, false, List, [], ◌∷◌, ◌++◌, none, some, map}
use warp_proxy.Base.{length, All, replicate, Bool-cases, Option-cases, ==_refl}
use warp_proxy.Base.Text.{same_iff}
use warp_proxy.Probe.Packet.{done, extract_udp, build_ipv4_udp}
use warp_proxy.Probe.Reply.{parse_first_txt}
use warp_proxy.Probe.Bounds.{extract_udp-IsDone, parse_first_txt-IsDone}
use warp_proxy.Probe.Extract.{extract_udp-build_ipv4_udp}
use warp_proxy.Probe.{
  resolver, Arrival, ip, broken, Attempt, Wait, replied, failed, elapsed, crashed, recv_udp_from,
  Probed, egress, round_trip, send_error, aborted, report, probe_loop,
}

recv_udp_from_skip :
    (pkt : List ℕ) (arrivals : List Arrival) (src : List ℕ) (port : ℕ)
    → extract_udp pkt src port ≡ done none
    → recv_udp_from (ip pkt ∷ arrivals) src port ≡ recv_udp_from arrivals src port
unfolding recv_udp_from
recv_udp_from_skip pkt arrivals src port e = rw (recv_udp_from, e) refl

recv_udp_from_take :
    (pkt payload : List ℕ) (arrivals : List Arrival) (src : List ℕ) (port : ℕ)
    → extract_udp pkt src port ≡ done (some payload)
    → recv_udp_from (ip pkt ∷ arrivals) src port ≡ replied payload
unfolding recv_udp_from
recv_udp_from_take pkt payload arrivals src port e = rw (recv_udp_from, e) refl

report_without :
    (lossy : List ℕ → List ℕ) (payload : List ℕ)
    → parse_first_txt lossy payload ≡ done none
    → report lossy payload ≡ round_trip (length payload)
unfolding report
report_without lossy payload e = rw (report, e) refl

pub report_egress :
    (lossy : List ℕ → List ℕ) (payload t : List ℕ)
    → parse_first_txt lossy payload ≡ done (some t)
    → report lossy payload ≡ egress t
unfolding report
report_egress lossy payload t e = rw (report, e) refl

recv_udp_from-crashed :
    (arrivals : List Arrival) (src : List ℕ) (port : ℕ) → recv_udp_from arrivals src port ≢ crashed
unfolding recv_udp_from
recv_udp_from-crashed [] src port e = absurd (ground arith)
recv_udp_from-crashed (broken ∷ arrivals) src port e = absurd (ground arith)
recv_udp_from-crashed (ip pkt ∷ arrivals) src port e =
    let (found, read) = extract_udp-IsDone pkt src port in
    elim (Option-cases found) [
      | inl nothing ↦
          recv_udp_from-crashed arrivals src port
            (sym (recv_udp_from_skip pkt arrivals src port (read ∙ ap done nothing)) ∙ e)
      | inr (p, got) ↦
          absurd (cc (recv_udp_from_take pkt p arrivals src port (read ∙ ap done got), e))
    ]

report-aborted : (lossy : List ℕ → List ℕ) (payload : List ℕ) → report lossy payload ≢ aborted
report-aborted lossy payload e =
    let (found, read) = parse_first_txt-IsDone lossy payload in
    elim (Option-cases found) [
      | inl nothing ↦ absurd (cc (report_without lossy payload (read ∙ ap done nothing), e))
      | inr (t, got) ↦ absurd (cc (report_egress lossy payload t (read ∙ ap done got), e))
    ]

-- The packets from the address and port that a wait passes over before one of theirs.
pub recv_udp_from-built :
    (noise : List (List ℕ)) (src dst payload : List ℕ) (port dport : ℕ) (rest : List Arrival)
    → All (λ pkt. extract_udp pkt src port ≡ done none) noise
    → length src ≡ 4
    → length dst ≡ 4
    → port < 65536
    → recv_udp_from (map ip noise ++ ip (build_ipv4_udp src dst port dport payload) ∷ rest) src port
      ≡ replied payload
recv_udp_from-built [] src dst payload port dport rest h four four' small =
    recv_udp_from_take _ payload rest src port (
      rw ((same_iff src src).1 refl, ==_refl port) at
        (extract_udp-build_ipv4_udp src dst src payload port dport port four four' small))
recv_udp_from-built (pkt ∷ noise) src dst payload port dport rest h four four' small =
    recv_udp_from_skip pkt _ src port h.0
    ∙ recv_udp_from-built noise src dst payload port dport rest h.1 four four' small

-- No reply in an attempt: its time is over, or the tunnel has failed.
abbrev pub Quiet : Wait → Type 0
Quiet w = (w ≡ failed) ⊎ (w ≡ elapsed)

Wait-cases : (w : Wait) → ((payload : List ℕ) × (w ≡ replied payload)) ⊎ (w ≡ crashed) ⊎ Quiet w
Wait-cases (replied payload) = inl (payload, refl)
Wait-cases failed = inr (inr (inl refl))
Wait-cases elapsed = inr (inr (inr refl))
Wait-cases crashed = inr (inl refl)

module _ (lossy : List ℕ → List ℕ) (packet : List ℕ) (a : Attempt) (attempts : List Attempt) where
  abbrev wait : Wait
  wait = recv_udp_from a.arrivals resolver 53

  attempt_refused : a.sends ≡ false → probe_loop lossy packet (a ∷ attempts) ≡ (send_error, [])
  unfolding probe_loop
  attempt_refused e = rw (probe_loop, e) refl

  pub attempt_found :
      (payload : List ℕ)
      → a.sends ≡ true
      → wait ≡ replied payload
      → probe_loop lossy packet (a ∷ attempts) ≡ (report lossy payload, packet ∷ [])
  unfolding probe_loop
  attempt_found payload e found = rw (probe_loop, e, found) refl

  pub attempt_silent :
      a.sends ≡ true
      → Quiet wait
      → probe_loop lossy packet (a ∷ attempts)
        ≡ ((probe_loop lossy packet attempts).0, packet ∷ (probe_loop lossy packet attempts).1)
  unfolding probe_loop
  attempt_silent e (inl quiet) = rw (probe_loop, e, quiet) refl
  attempt_silent e (inr quiet) = rw (probe_loop, e, quiet) refl

-- The loop sends nothing but its packet, once in an attempt at most, and does not panic.
unfoldable pub Careful : List ℕ → ℕ → Probed × List (List ℕ) → Type 0
Careful packet n (end, sent) = (end ≢ aborted) × (length sent ≤ n) × All (λ p. p ≡ packet) sent

pub probe_loop-Careful :
    (lossy : List ℕ → List ℕ) (packet : List ℕ) (attempts : List Attempt)
    → Careful packet (length attempts) (probe_loop lossy packet attempts)
unfolding probe_loop Careful
probe_loop-Careful lossy packet [] = (λ e. absurd (ground arith), omega arith, tt)
probe_loop-Careful lossy packet (a ∷ attempts) =
    let (calm, few, alike) = probe_loop-Careful lossy packet attempts in
    elim (Bool-cases a.sends) [
      | inr e ↦
          rw (attempt_refused lossy packet a attempts e)
            (λ e. absurd (ground arith), omega arith, tt)
      | inl e ↦ elim (Wait-cases (recv_udp_from a.arrivals resolver 53)) [
        | inl (payload, found) ↦
            rw (attempt_found lossy packet a attempts payload e found)
              (report-aborted lossy payload, omega arith, (refl, tt))
        | inr (inl panics) ↦ absurd (recv_udp_from-crashed a.arrivals resolver 53 panics)
        | inr (inr quiet) ↦
            rw (attempt_silent lossy packet a attempts e quiet)
              (calm, omega (arith, few), (refl, alike))
      ]
    ]

abbrev pub Silent : Attempt → Type 0
Silent a = (a.sends ≡ true) × Quiet (recv_udp_from a.arrivals resolver 53)

-- The first attempt with a reply ends the loop.
pub probe_loop_found :
    (lossy : List ℕ → List ℕ) (packet payload : List ℕ) (before : List Attempt) (a : Attempt)
    (after : List Attempt)
    → All Silent before
    → a.sends ≡ true
    → recv_udp_from a.arrivals resolver 53 ≡ replied payload
    → probe_loop lossy packet (before ++ a ∷ after)
      ≡ (report lossy payload, replicate (suc (length before)) packet)
probe_loop_found lossy packet payload [] a after silent e found =
    attempt_found lossy packet a after payload e found
probe_loop_found lossy packet payload (b ∷ before) a after silent e found =
    let rest = probe_loop_found lossy packet payload before a after silent.1 e found in
    rw (attempt_silent lossy packet b (before ++ a ∷ after) silent.0.0 silent.0.1, rest) refl
