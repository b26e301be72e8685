-- ===== src/H2Tunnel/Reader.antt =====
-- The buffer loop of `reader_loop` by rounds: it ends, and input that comes later is as good as
-- input that was there at once.
use warp_proxy.Base.{ℕ, zero, suc, ◌-◌, ◌≤◌, ◌<◌, ◌≡◌, ap, ◌∙◌, sym, inl, inr, ◌⊎◌, arith}
use warp_proxy.Base.{List, [], ◌++◌, none, some, append-nil, Option-cases}
use warp_proxy.Base.{Bool, true, false, ◌==◌, Bool-cases}
use warp_proxy.Base.{length, drop, length-append, take-append_le, drop-append_le, length-drop}
use warp_proxy.H2Tunnel.{
  parse_capsule, slice, send_packet, Drained, waiting, returned, stuck, drain,
}
use warp_proxy.H2Tunnel.{on_bytes, capsule_datagram}
use warp_proxy.H2Tunnel.Capsule.{parse_capsule_takes, parse_capsule-append}

-- What one round of the loop does, whatever input follows in the buffer.
pub data Round (alive : ℕ → Bool) (buf : List ℕ) (sent : List (List ℕ)) : Type 0 where
  idle : parse_capsule buf ≡ none → Round alive buf sent
  took :
      (total : ℕ) (sent' : List (List ℕ))
      → 0 < total
      → total ≤ length buf
      → ((more : List ℕ) (fuel : ℕ)
          → drain (suc fuel) alive (buf ++ more) sent
            ≡ drain fuel alive (drop total buf ++ more) sent')
      → Round alive buf sent
  gone :
      ((more : List ℕ) (fuel : ℕ) → drain (suc fuel) alive (buf ++ more) sent ≡ returned sent)
      → Round alive buf sent

module _ (alive : ℕ → Bool) where
  pub drain_skip :
      (buf : List ℕ) (sent : List (List ℕ)) (ctype voff total : ℕ) (fuel : ℕ)
      → parse_capsule buf ≡ some (ctype, voff, total)
      → (ctype == capsule_datagram) ≡ false
      → drain (suc fuel) alive buf sent ≡ drain fuel alive (drop total buf) sent
  unfolding drain
  drain_skip buf sent ctype voff total fuel e other = ground arith

  pub drain_send :
      (buf : List ℕ) (sent sent' : List (List ℕ)) (ctype voff total : ℕ) (fuel : ℕ)
      → parse_capsule buf ≡ some (ctype, voff, total)
      → (ctype == capsule_datagram) ≡ true
      → send_packet alive sent (slice buf voff total) ≡ some sent'
      → drain (suc fuel) alive buf sent ≡ drain fuel alive (drop total buf) sent'
  unfolding drain
  drain_send buf sent sent' ctype voff total fuel e same s = ground arith

  drain_gone :
      (buf : List ℕ) (sent : List (List ℕ)) (ctype voff total : ℕ) (fuel : ℕ)
      → parse_capsule buf ≡ some (ctype, voff, total)
      → (ctype == capsule_datagram) ≡ true
      → send_packet alive sent (slice buf voff total) ≡ none
      → drain (suc fuel) alive buf sent ≡ returned sent
  unfolding drain
  drain_gone buf sent ctype voff total fuel e same s = ground arith

  pub drain_idle :
      (buf : List ℕ) (sent : List (List ℕ)) (fuel : ℕ)
      → parse_capsule buf ≡ none
      → drain (suc fuel) alive buf sent ≡ waiting buf sent
  unfolding drain
  drain_idle buf sent fuel e = ground arith

  slice-append :
      (buf more : List ℕ) (from to : ℕ)
      → from ≤ to
      → to ≤ length buf
      → slice (buf ++ more) from to ≡ slice buf from to
  slice-append buf more from to h k =
      rw (drop-append_le from buf more (omega arith))
        (take-append_le (to - from) (drop from buf) more (omega (arith, length-drop from buf)))

  found-Round :
      (buf : List ℕ) (sent : List (List ℕ)) (ctype voff total : ℕ)
      → parse_capsule buf ≡ some (ctype, voff, total)
      → Round alive buf sent
  found-Round buf sent ctype voff total e =
      let (lo, hi, pos) = parse_capsule_takes buf ctype voff total e in
      let wide = λ (more : List ℕ). parse_capsule-append buf more ctype voff total e in
      let cut = λ (more : List ℕ). drop-append_le total buf more hi in
      elim (Bool-cases (ctype == capsule_datagram)) [
        | inr other ↦ took total sent pos hi λ more fuel.
            drain_skip (buf ++ more) sent ctype voff total fuel (wide more) other ∙ rw (cut more)
        | inl same ↦ elim (Option-cases (send_packet alive sent (slice buf voff total))) [
          | inl dropped ↦ gone λ more fuel.
              drain_gone (buf ++ more) sent ctype voff total fuel (wide more) same
                (rw (slice-append buf more voff total lo hi) dropped)
          | inr (sent', ok) ↦ took total sent' pos hi λ more fuel.
              drain_send (buf ++ more) sent sent' ctype voff total fuel (wide more) same
                (rw (slice-append buf more voff total lo hi) ok)
              ∙ rw (cut more)
        ]
      ]

  rounds : (buf : List ℕ) (sent : List (List ℕ)) → Round alive buf sent
  rounds buf sent = elim (Option-cases (parse_capsule buf)) [
    | inl e ↦ idle e
    | inr ((ctype, voff, total), e) ↦ found-Round buf sent ctype voff total e
  ]

  round_next :
      (buf : List ℕ) (sent sent' : List (List ℕ)) (total : ℕ)
      → ((more : List ℕ) (fuel : ℕ)
          → drain (suc fuel) alive (buf ++ more) sent
            ≡ drain fuel alive (drop total buf ++ more) sent')
      → (fuel : ℕ) → drain (suc fuel) alive buf sent ≡ drain fuel alive (drop total buf) sent'
  round_next buf sent sent' total next fuel =
      rw (append-nil buf, append-nil (drop total buf)) at (next [] fuel)

  gone_now :
      (buf : List ℕ) (sent : List (List ℕ))
      → ((more : List ℕ) (fuel : ℕ) → drain (suc fuel) alive (buf ++ more) sent ≡ returned sent)
      → (fuel : ℕ) → drain (suc fuel) alive buf sent ≡ returned sent
  gone_now buf sent all fuel = rw (append-nil buf) at (all [] fuel)

  -- Fuel beyond the length of the buffer does not change the result.
  pub drain_fuel :
      (f g : ℕ) (buf : List ℕ) (sent : List (List ℕ))
      → length buf < f
      → length buf < g
      → drain f alive buf sent ≡ drain g alive buf sent
  drain_fuel zero g buf sent hf hg = absurd (omega arith)
  drain_fuel (suc f) zero buf sent hf hg = absurd (omega arith)
  drain_fuel (suc f) (suc g) buf sent hf hg = elim (rounds buf sent) [
    | idle e ↦ drain_idle buf sent f e ∙ sym (drain_idle buf sent g e)
    | gone e ↦ gone_now buf sent e f ∙ sym (gone_now buf sent e g)
    | took total sent' pos le next ↦
        round_next buf sent sent' total next f
        ∙ drain_fuel f g (drop total buf) sent' (omega (arith, length-drop total buf))
            (omega (arith, length-drop total buf))
        ∙ sym (round_next buf sent sent' total next g)
  ]

  -- With enough fuel the loop ends: it waits for input at a buffer that holds no whole capsule, or
  -- the task has returned.
  pub drain_ends :
      (f : ℕ) (buf : List ℕ) (sent : List (List ℕ))
      → length buf < f
      → ((rest : List ℕ) × (sent' : List (List ℕ)) × (drain f alive buf sent ≡ waiting rest sent')
          × (parse_capsule rest ≡ none))
        ⊎ ((sent' : List (List ℕ)) × (drain f alive buf sent ≡ returned sent'))
  drain_ends zero buf sent h = absurd (omega arith)
  drain_ends (suc f) buf sent h = elim (rounds buf sent) [
    | idle e ↦ inl (buf, sent, drain_idle buf sent f e, e)
    | gone e ↦ inr (sent, gone_now buf sent e f)
    | took total sent' pos le next ↦
        rw (round_next buf sent sent' total next f)
          (drain_ends f (drop total buf) sent' (omega (arith, length-drop total buf)))
  ]

  -- What happens when more input joins a loop that has ended.
  abbrev pub resume : List ℕ → Drained → Drained
  resume more (waiting rest sent) = on_bytes alive rest sent more
  resume more (returned sent) = returned sent
  resume more stuck = stuck

  pub drain-append :
      (f g : ℕ) (buf more : List ℕ) (sent : List (List ℕ))
      → length buf < f
      → length (buf ++ more) < g
      → drain g alive (buf ++ more) sent ≡ resume more (drain f alive buf sent)
  drain-append zero g buf more sent hf hg = absurd (omega arith)
  drain-append (suc f) zero buf more sent hf hg = absurd (omega arith)
  drain-append (suc f) (suc g) buf more sent hf hg = elim (rounds buf sent) [
    | idle e ↦ rw (drain_idle buf sent f e) (
        unfold on_bytes in
        drain_fuel (suc g) (suc (length (buf ++ more))) (buf ++ more) sent hg (omega arith))
    | gone e ↦ e more g ∙ ap (resume more) (sym (gone_now buf sent e f))
    | took total sent' pos le next ↦
        next more g
        ∙ drain-append f g (drop total buf) more sent' (omega (arith, length-drop total buf)) (
            omega (
              arith,
              length-drop total buf,
              length-append buf more,
              length-append (drop total buf) more,
            ))
        ∙ ap (resume more) (sym (round_next buf sent sent' total next f))
  ]
