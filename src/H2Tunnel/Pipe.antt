-- ===== src/H2Tunnel/Pipe.antt =====
-- The two ends together: a reader at the other end of what `writer_loop` wrote.
use warp_proxy.Base.{ℕ, zero, suc, ◌≤◌, ◌≡◌, refl, ap, ◌∙◌, sym, arith}
use warp_proxy.Base.{List, [], ◌∷◌, ◌++◌, append-nil, map, length, take, All}
use warp_proxy.H2Tunnel.{SendStream, writer_loop, waiting, reader_loop, bytes}
use warp_proxy.H2Tunnel.{capsule_datagram}
use warp_proxy.Varint.RoundTrip.{Fits}
use warp_proxy.H2Tunnel.Capsule.{capsule, encode_datagram_capsule-eq}
use warp_proxy.H2Tunnel.Delivery.{
  wire, datagrams, AllFit, open_end, parse_capsule-nil, reader_loop_delivers,
}
use warp_proxy.H2Tunnel.Writer.{final, framed, writer_loop_prefix}
use mathlib.Core.List.{flatten}

abbrev packets : List (List ℕ) → List (ℕ × List ℕ)
packets = map (λ pkt. (capsule_datagram, pkt))

abbrev pub AllPackets : List (List ℕ) → Type 0
AllPackets pkts = All (λ pkt. Fits (length pkt)) pkts

framed-wire : (pkts : List (List ℕ)) → AllPackets pkts → framed pkts ≡ wire (packets pkts)
unfolding framed flatten
framed-wire [] h = refl
framed-wire (pkt ∷ pkts) h =
    rw (encode_datagram_capsule-eq pkt h.0)
      (ap (λ t. capsule capsule_datagram pkt ++ t) (framed-wire pkts h.1))

datagrams-packets : (pkts : List (List ℕ)) → datagrams (packets pkts) ≡ pkts
datagrams-packets [] = refl
datagrams-packets (pkt ∷ pkts) = ap (λ l. pkt ∷ l) (datagrams-packets pkts)

AllFit-packets : (pkts : List (List ℕ)) → AllPackets pkts → AllFit (packets pkts)
AllFit-packets [] h = tt
AllFit-packets (pkt ∷ pkts) h = (omega arith, h.0, AllFit-packets pkts h.1)

AllPackets-take : (k : ℕ) (pkts : List (List ℕ)) → AllPackets pkts → AllPackets (take k pkts)
AllPackets-take zero pkts h = tt
AllPackets-take (suc k) [] h = tt
AllPackets-take (suc k) (pkt ∷ pkts) h = (h.0, AllPackets-take k pkts h.1)

-- A peer that runs the same reader over what the writer put on a fresh stream, cut into DATA frames in any way,
-- gets the first packets of the writer's queue, unchanged and in order, and nothing is left over.
pub reader_loop-writer_loop :
    (h2 : SendStream) (polls : ℕ) (pkts : List (List ℕ)) (s : h2.State) (chunks : List (List ℕ))
    → AllPackets pkts
    → h2.accepted s ≡ []
    → flatten chunks ≡ h2.accepted (final (writer_loop h2 polls s pkts))
    → (k : ℕ) × (k ≤ length pkts)
      × ((reader_loop open_end [] [] 0 (map bytes chunks)).0 ≡ waiting [] (take k pkts))
reader_loop-writer_loop h2 polls pkts s chunks fit fresh cut =
    let (k, le, eq) = writer_loop_prefix h2 polls pkts s in
    let sent = take k pkts in
    let small = AllPackets-take k pkts fit in
    let whole : flatten chunks ≡ wire (packets sent) ++ [] =
      cut ∙ eq ∙ rw (fresh, framed-wire sent small) (sym (append-nil _)) in
    let all =
      reader_loop_delivers (packets sent) [] chunks (AllFit-packets sent small) parse_capsule-nil
        whole in
    (k, le, ap (λ r. r.0) all ∙ ap (waiting []) (datagrams-packets sent))
