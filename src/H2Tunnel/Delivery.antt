-- ===== src/H2Tunnel/Delivery.antt =====
-- What `reader_loop` delivers, however the capsule stream is cut into DATA frames.
use warp_proxy.Base.{ℕ, zero, suc, ◌+◌, ◌<◌, ◌≡◌, ap, ◌∙◌, sym, inl, inr, ◌⊎◌, arith}
use warp_proxy.Base.{List, [], ◌∷◌, ◌++◌, none, append-nil, append_assoc, Option-cases}
use warp_proxy.Base.{Bool, true, ◌==◌, Bool-cases, if◌then◌else◌, map}
use warp_proxy.Base.{length, drop, length-append, drop-append}
use warp_proxy.H2Tunnel.{parse_capsule, send_packet, waiting, returned, drain}
use warp_proxy.H2Tunnel.{bytes, on_bytes, reader_loop, capsule_datagram}
use warp_proxy.Varint.RoundTrip.{Fits}
use warp_proxy.H2Tunnel.Capsule.{parse_capsule_takes, capsule, header}
use warp_proxy.H2Tunnel.Capsule.{parse_capsule-capsule, slice-capsule, length-capsule}
use warp_proxy.H2Tunnel.Reader.{
  drain_idle, drain_skip, drain_send, drain_ends, drain-append, resume,
}
use mathlib.Core.List.{flatten}

module _ (alive : ℕ → Bool) where
  on_bytes_ends :
      (buf more : List ℕ) (sent : List (List ℕ))
      → ((rest : List ℕ) × (sent' : List (List ℕ)) × (on_bytes alive buf sent more
            ≡ waiting rest sent')
          × (parse_capsule rest ≡ none))
        ⊎ ((sent' : List (List ℕ)) × (on_bytes alive buf sent more ≡ returned sent'))
  unfolding on_bytes
  on_bytes_ends buf more sent = drain_ends alive _ (buf ++ more) sent (omega arith)

  on_bytes-append :
      (buf more later : List ℕ) (sent : List (List ℕ))
      → on_bytes alive buf sent (more ++ later) ≡ resume alive later (on_bytes alive buf sent more)
  unfolding on_bytes
  on_bytes-append buf more later sent =
      rw (sym (append_assoc buf more later))
        (drain-append alive _ _ (buf ++ more) later sent (omega arith) (omega arith))

  -- However the bytes are cut into DATA frames, the reader ends as if all had come at once, provided
  -- that its buffer held no whole capsule before.
  pub reader_loop-flatten :
      (chunks : List (List ℕ)) (buf : List ℕ) (sent : List (List ℕ)) (released : ℕ)
      → parse_capsule buf ≡ none
      → (reader_loop alive buf sent released (map bytes chunks)).0
        ≡ on_bytes alive buf sent (flatten chunks)
  unfolding reader_loop flatten
  reader_loop-flatten [] buf sent released e =
      unfold on_bytes in sym (rw (append-nil buf) (drain_idle alive buf sent (length buf) e))
  reader_loop-flatten (c ∷ chunks) buf sent released e =
      rw (on_bytes-append buf c (flatten chunks) sent) (elim (on_bytes_ends buf c sent) [
        | inl (rest, sent', w, none_left) ↦
            rw (w, reader_loop)
              (reader_loop-flatten chunks rest sent' (released + length c) none_left)
        | inr (sent', w) ↦ rw (w, reader_loop)
      ])

-- A stream of capsules, each given by its type and value, and the values of the DATAGRAM ones.
abbrev pub wire : List (ℕ × List ℕ) → List ℕ
wire [] = []
wire ((ctype, value) ∷ cs) = capsule ctype value ++ wire cs

abbrev pub datagrams : List (ℕ × List ℕ) → List (List ℕ)
datagrams [] = []
datagrams ((ctype, value) ∷ cs) =
    if ctype == capsule_datagram then value ∷ datagrams cs else datagrams cs

abbrev pub AllFit : List (ℕ × List ℕ) → Type 0
AllFit [] = Unit {0}
AllFit ((ctype, value) ∷ cs) = Fits ctype × Fits (length value) × AllFit cs

abbrev pub open_end : ℕ → Bool
open_end n = true

-- One complete capsule at the front of the buffer.
drain-capsule :
    (ctype : ℕ) (value more : List ℕ) (sent : List (List ℕ)) (fuel : ℕ)
    → Fits ctype
    → Fits (length value)
    → drain (suc fuel) open_end (capsule ctype value ++ more) sent
      ≡ drain fuel open_end more (if ctype == capsule_datagram then sent ++ value ∷ [] else sent)
drain-capsule ctype value more sent fuel ht hl =
    let buf = capsule ctype value ++ more in
    let total = header ctype value + length value in
    let parsed = parse_capsule-capsule ctype value more ht hl in
    let gone : drop total buf ≡ more =
      drop-append (capsule ctype value) more total (sym (length-capsule ctype value)) in
    elim (Bool-cases (ctype == capsule_datagram)) [
      | inr other ↦
          rw other (drain_skip open_end buf sent ctype _ total fuel parsed other ∙ rw gone)
      | inl same ↦ rw same (
          drain_send open_end buf sent (sent ++ value ∷ []) ctype _ total fuel parsed same
            (unfold send_packet in rw (slice-capsule ctype value more))
          ∙ rw gone)
    ]

capsule-pos :
    (ctype : ℕ) (value : List ℕ)
    → Fits ctype
    → Fits (length value)
    → 0 < length (capsule ctype value)
capsule-pos ctype value ht hl =
    let (lo, hi, pos) =
      parse_capsule_takes (capsule ctype value ++ []) ctype (header ctype value)
        (header ctype value + length value) (parse_capsule-capsule ctype value [] ht hl) in
    rw (length-capsule ctype value) pos

-- The whole stream, with a part of a capsule behind it.
drain-wire :
    (cs : List (ℕ × List ℕ)) (tail : List ℕ) (sent : List (List ℕ)) (fuel : ℕ)
    → AllFit cs
    → parse_capsule tail ≡ none
    → length (wire cs ++ tail) < fuel
    → drain fuel open_end (wire cs ++ tail) sent ≡ waiting tail (sent ++ datagrams cs)
drain-wire cs tail sent zero h e hf = absurd (omega arith)
drain-wire [] tail sent (suc fuel) h e hf =
    rw (append-nil sent) (drain_idle open_end tail sent fuel e)
drain-wire ((ctype, value) ∷ cs) tail sent (suc fuel) (ht, hl, hs) e hf =
    let shorter : length (wire cs ++ tail) < fuel = omega (
      arith,
      capsule-pos ctype value ht hl,
      ap length (append_assoc (capsule ctype value) (wire cs) tail),
      length-append (capsule ctype value) (wire cs ++ tail),
    ) in
    rw (append_assoc (capsule ctype value) (wire cs) tail) (
      drain-capsule ctype value (wire cs ++ tail) sent fuel ht hl
      ∙ drain-wire cs tail (if ctype == capsule_datagram then sent ++ value ∷ [] else sent) fuel hs
          e shorter
      ∙ ground (arith, append_assoc sent (value ∷ []) (datagrams cs)))

pub parse_capsule-nil : parse_capsule [] ≡ none
parse_capsule-nil = elim (Option-cases (parse_capsule [])) [
  | inl e ↦ e
  | inr ((ctype, voff, total), e) ↦
      absurd (omega (arith, parse_capsule_takes [] ctype voff total e))
]

-- A reader that still waits has returned credit for every byte that came.
reader_loop_released :
    (alive : ℕ → Bool) (chunks : List (List ℕ)) (buf : List ℕ) (sent : List (List ℕ)) (released : ℕ)
    (rest : List ℕ) (sent' : List (List ℕ))
    → (reader_loop alive buf sent released (map bytes chunks)).0 ≡ waiting rest sent'
    → (reader_loop alive buf sent released (map bytes chunks)).1
      ≡ released + length (flatten chunks)
unfolding reader_loop flatten
reader_loop_released alive [] buf sent released rest sent' e = omega arith
reader_loop_released alive (c ∷ chunks) buf sent released rest sent' e =
    elim (on_bytes_ends alive buf c sent) [
      | inl (b, s, w, _) ↦
          rw (w, reader_loop)
            (omega (
              arith,
              length-append c (flatten chunks),
              reader_loop_released alive chunks b s (released + length c) rest sent'
                  (rw (w, reader_loop) at e),
            ))
      | inr (s, w) ↦ ground arith
    ]

-- From an empty buffer, the reader delivers the values of the DATAGRAM capsules of the stream, in
-- order and nothing else, however the stream is cut into DATA frames; it keeps what has come of an
-- unfinished capsule, and has returned flow-control credit for every byte.
pub reader_loop_delivers :
    (cs : List (ℕ × List ℕ)) (tail : List ℕ) (chunks : List (List ℕ))
    → AllFit cs
    → parse_capsule tail ≡ none
    → flatten chunks ≡ wire cs ++ tail
    → reader_loop open_end [] [] 0 (map bytes chunks)
      ≡ (waiting tail (datagrams cs), length (wire cs ++ tail))
reader_loop_delivers cs tail chunks fit e cut =
    let ended : (reader_loop open_end [] [] 0 (map bytes chunks)).0 ≡ waiting tail (datagrams cs) =
      reader_loop-flatten open_end chunks [] [] 0 parse_capsule-nil
      ∙ rw cut (unfold on_bytes in drain-wire cs tail [] _ fit e (omega arith)) in
    let credit : (reader_loop open_end [] [] 0 (map bytes chunks)).1 ≡ length (wire cs ++ tail) =
      reader_loop_released open_end chunks [] [] 0 tail (datagrams cs) ended
      ∙ rw cut (omega arith) in
    λ i. (ended i, credit i)
