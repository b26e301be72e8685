-- ===== src/Probe/Reply.antt =====
-- `parse_first_txt` and `skip_name` of crates/warp-masque/examples/egress_probe.rs.
use warp_proxy.Base.{ℕ, zero, suc, ◌+◌, bit_and, min, ◌&&◌, List, Option, none, some}
use warp_proxy.Base.{ltb, leb, ◌==◌, if◌then◌else◌, length, get_elem?}
use warp_proxy.Probe.Checksum.{from_be_bytes}
use warp_proxy.Probe.Packet.{Checked, done, ◌>>=◌, index, slice_range}

-- How the loop of `skip_name` ends: behind the name, at the end of the message, or without fuel.
pub data Skipped : Type 0 where
  behind : ℕ → Skipped
  past_end stuck : Skipped

-- The loop of `skip_name`; each round moves on, so that the fuel is the length of the message.
unfoldable pub skip_loop : ℕ → List ℕ → ℕ → Skipped
skip_loop zero dns pos = stuck
skip_loop (suc fuel) dns pos = elim (get_elem? dns pos) [
  | none ↦ past_end
  | some len ↦
      let next = skip_loop fuel dns (pos + (1 + len)) in
      if bit_and len 0xc0 == 0xc0
      then behind (pos + 2)
      else (if len == 0 then behind (pos + 1) else next)
]

-- `stuck` does not come with this fuel.
unfoldable pub skipped_to : Skipped → Option ℕ
skipped_to (behind pos) = some pos
skipped_to past_end = none
skipped_to stuck = none

unfoldable pub skip_name : List ℕ → ℕ → Option ℕ
unfolding skip_loop skipped_to
skip_name dns pos = skipped_to (skip_loop (suc (length dns)) dns pos)

-- The bytes of the first TXT string of a record whose data stands at `rdata`.
unfoldable pub txt_at : List ℕ → ℕ → Checked (List ℕ)
unfolding index slice_range
txt_at dns rdata = do
  txt_len ← index dns rdata
  slice_range dns (rdata + 1) (min (rdata + 1 + txt_len) (length dns))

-- The loop over the answers.
unfoldable pub parse_answers : (List ℕ → List ℕ) → List ℕ → ℕ → ℕ → Checked (Option (List ℕ))
unfolding skip_name txt_at index
parse_answers from_utf8_lossy dns zero pos = done none
parse_answers from_utf8_lossy dns (suc left) start = elim (skip_name dns start) [
  | none ↦ done none
  | some pos ↦ if ltb (length dns) (pos + 10) then done none else (do
    type_high ← index dns pos
    type_low ← index dns (pos + 1)
    len_high ← index dns (pos + 8)
    len_low ← index dns (pos + 9)
    let rdlen = from_be_bytes len_high len_low in
        let rdata = pos + 10 in
        let next = parse_answers from_utf8_lossy dns left (rdata + rdlen) in
        if ltb (length dns) (rdata + rdlen)
        then done none
        else (if from_be_bytes type_high type_low == 16 && leb 1 rdlen
            then (do text ← txt_at dns rdata; done (some (from_utf8_lossy text)))
            else next))
]

unfoldable pub parse_first_txt : (List ℕ → List ℕ) → List ℕ → Checked (Option (List ℕ))
unfolding parse_answers index skip_name
parse_first_txt from_utf8_lossy dns = if ltb (length dns) 12 then done none else (do
  high ← index dns 6
  low ← index dns 7
  let ancount = from_be_bytes high low in
      if ancount == 0 then done none else (elim (skip_name dns 12) [
        | none ↦ done none
        | some pos ↦ parse_answers from_utf8_lossy dns ancount (pos + 4)
      ]))
