-- ===== src/Probe/Bounds.antt =====
-- No access of the probe's two readers is out of range.
use warp_proxy.Base.{ℕ, zero, suc, ◌+◌, ◌*◌, ◌/◌, ◌≤◌, ◌<◌, min, bit_and}
use warp_proxy.Base.{
  ◌≡◌, refl, arith, inl, inr, Bool, true, false, not, ◌||◌, ◌&&◌, List, [], ◌∷◌, none, some,
}
use warp_proxy.Base.{
  ltb, leb, ltb_false→le, le→ltb_false, ◌==◌, if◌then◌else◌, Option-cases, length, get_elem?-lt,
}
use warp_proxy.Base.Text.{same}
use warp_proxy.Probe.Checksum.{from_be_bytes}
use warp_proxy.Probe.Packet.{
  Checked, done, ◌>>=◌, index, slice_range, slice_from, extract_behind, extract_udp,
}
use warp_proxy.Probe.Reply.{skip_name, txt_at, parse_answers, parse_first_txt}

abbrev pub IsDone {ℓ} : {A : Type ℓ} → Checked A → Type ℓ
IsDone {A = A} c = (a : A) × (c ≡ done a)

bind-IsDone {ℓ κ} :
    {A : Type ℓ} {B : Type κ} (c : Checked A) (f : A → Checked B)
    → IsDone c
    → ((a : A) → IsDone (f a))
    → IsDone (c >>= f)
bind-IsDone c f (a, e) h = rw e (h a)

if-IsDone {ℓ} :
    {A : Type ℓ} (b : Bool) (c d : Checked A)
    → ((b ≡ true) → IsDone c)
    → ((b ≡ false) → IsDone d)
    → IsDone (if b then c else d)
if-IsDone true c d hc hd = hc refl
if-IsDone false c d hc hd = hd refl

done-IsDone {ℓ} : {A : Type ℓ} (a : A) → IsDone (done a)
done-IsDone a = (a, refl)

pub index-IsDone : (bytes : List ℕ) (i : ℕ) → i < length bytes → IsDone (index bytes i)
unfolding index
index-IsDone bytes i h = let (b, e) = get_elem?-lt bytes i h in (b, rw (index, e) refl)

slice_range-IsDone :
    (bytes : List ℕ) (from to : ℕ)
    → from ≤ to
    → to ≤ length bytes
    → IsDone (slice_range bytes from to)
unfolding slice_range
slice_range-IsDone bytes from to h k =
    rw (le→ltb_false to from h, le→ltb_false (length bytes) to k) (done-IsDone _)

slice_from-IsDone :
    (bytes : List ℕ) (from : ℕ) → from ≤ length bytes → IsDone (slice_from bytes from)
unfolding slice_from
slice_from-IsDone bytes from h = rw (le→ltb_false (length bytes) from h) (done-IsDone _)

||-false : (a b : Bool) → (a || b) ≡ false → b ≡ false
||-false true b e = absurd (ground arith)
||-false false b e = e

extract_behind-IsDone :
    (pkt src : List ℕ) (port first : ℕ)
    → 20 ≤ length pkt
    → IsDone (extract_behind pkt src port first)
unfolding extract_behind
extract_behind-IsDone pkt src port first h =
    let ihl = bit_and first 0x0f * 4 in
    bind-IsDone _ _ (index-IsDone pkt 12 (omega arith)) (λ a.
      bind-IsDone _ _ (index-IsDone pkt 13 (omega arith)) (λ b.
        bind-IsDone _ _ (index-IsDone pkt 14 (omega arith)) (λ c.
          bind-IsDone _ _ (index-IsDone pkt 15 (omega arith)) (λ d.
            let other = not (same (a ∷ b ∷ c ∷ d ∷ []) src) in
            if-IsDone (other || ltb (length pkt) (ihl + 8)) _ _ (λ e. done-IsDone none)
              (λ (e : (other || ltb (length pkt) (ihl + 8)) ≡ false).
                let room : ihl + 8 ≤ length pkt = ltb_false→le _ _ (||-false other _ e) in
                bind-IsDone _ _ (index-IsDone pkt ihl (omega arith)) (λ high.
                  bind-IsDone _ _ (index-IsDone pkt (ihl + 1) (omega arith)) (λ low.
                    if-IsDone _ _ _ (λ e. done-IsDone none)
                      (λ e.
                        bind-IsDone _ _ (slice_from-IsDone pkt (ihl + 8) room)
                          (λ p. done-IsDone (some p))))))))))

-- `extract_udp` reads any packet without a panic.
pub extract_udp-IsDone : (pkt src : List ℕ) (port : ℕ) → IsDone (extract_udp pkt src port)
unfolding extract_udp
extract_udp-IsDone pkt src port =
    if-IsDone (ltb (length pkt) 20) _ _ (λ e. done-IsDone none)
      (λ (short : ltb (length pkt) 20 ≡ false).
        let long = ltb_false→le (length pkt) 20 short in
        bind-IsDone _ _ (index-IsDone pkt 0 (omega arith)) (λ first.
          if-IsDone (not (first / 16 == 4)) _ _ (λ e. done-IsDone none)
            (λ e. bind-IsDone _ _ (index-IsDone pkt 9 (omega arith)) (λ protocol.
              if-IsDone (not (protocol == 17)) _ _ (λ e. done-IsDone none)
                (λ e. extract_behind-IsDone pkt src port first long)))))

txt_at-IsDone : (dns : List ℕ) (rdata : ℕ) → rdata < length dns → IsDone (txt_at dns rdata)
unfolding txt_at
txt_at-IsDone dns rdata h = bind-IsDone _ _ (index-IsDone dns rdata h) (λ txt_len.
    slice_range-IsDone dns (rdata + 1) (min (rdata + 1 + txt_len) (length dns)) (omega arith)
      (omega arith))

-- The guards behind the name of an answer.
behind_name :
    (low high rdlen pos : ℕ) (dns : List ℕ)
    → (low == high && leb 1 rdlen) ≡ true
    → ltb (length dns) (pos + 10 + rdlen) ≡ false
    → pos + 10 < length dns
behind_name low high rdlen pos dns e h = ground arith

parse_answers-IsDone :
    (from_utf8_lossy : List ℕ → List ℕ) (dns : List ℕ) (left pos : ℕ)
    → IsDone (parse_answers from_utf8_lossy dns left pos)
unfolding parse_answers
parse_answers-IsDone lossy dns zero pos = done-IsDone none
parse_answers-IsDone lossy dns (suc left) start = elim (Option-cases (skip_name dns start)) [
  | inl e ↦ rw (parse_answers, e) (done-IsDone none)
  | inr (pos, e) ↦
      rw (parse_answers, e)
        (if-IsDone (ltb (length dns) (pos + 10)) _ _ (λ e. done-IsDone none)
          (λ (fits : ltb (length dns) (pos + 10) ≡ false).
            let room = ltb_false→le _ _ fits in
            bind-IsDone _ _ (index-IsDone dns pos (omega arith)) (λ a.
              bind-IsDone _ _ (index-IsDone dns (pos + 1) (omega arith)) (λ b.
                bind-IsDone _ _ (index-IsDone dns (pos + 8) (omega arith)) (λ c.
                  bind-IsDone _ _ (index-IsDone dns (pos + 9) (omega arith)) (λ d.
                    if-IsDone (ltb (length dns) (pos + 10 + from_be_bytes c d)) _ _
                      (λ e. done-IsDone none)
                      (λ (inside : ltb (length dns) (pos + 10 + from_be_bytes c d) ≡ false).
                        if-IsDone (from_be_bytes a b == 16 && leb 1 (from_be_bytes c d)) _ _
                          (λ (txt : (from_be_bytes a b == 16 && leb 1 (from_be_bytes c d)) ≡ true).
                            bind-IsDone _ _
                              (txt_at-IsDone dns (pos + 10) (behind_name _ 16 _ pos dns txt inside))
                              (λ t. done-IsDone _))
                          (λ e. parse_answers-IsDone lossy dns left _))))))))
]

-- `parse_first_txt` reads any message without a panic.
pub parse_first_txt-IsDone :
    (from_utf8_lossy : List ℕ → List ℕ) (dns : List ℕ)
    → IsDone (parse_first_txt from_utf8_lossy dns)
unfolding parse_first_txt
parse_first_txt-IsDone lossy dns =
    if-IsDone (ltb (length dns) 12) _ _ (λ e. done-IsDone none)
      (λ (short : ltb (length dns) 12 ≡ false).
        let long = ltb_false→le (length dns) 12 short in
        bind-IsDone _ _ (index-IsDone dns 6 (omega arith)) (λ a.
          bind-IsDone _ _ (index-IsDone dns 7 (omega arith)) (λ b.
            if-IsDone (from_be_bytes a b == 0) _ _ (λ e. done-IsDone none)
              (λ e. elim (Option-cases (skip_name dns 12)) [
                | inl e ↦ rw e (done-IsDone none)
                | inr (pos, e) ↦ rw e (parse_answers-IsDone lossy dns _ (pos + 4))
              ]))))
