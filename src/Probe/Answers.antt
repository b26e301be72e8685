-- ===== src/Probe/Answers.antt =====
-- What `parse_first_txt` reads of the messages of a DNS server.
pub mod Rounds
use warp_proxy.Base.{ℕ, suc, ◌+◌, ◌/◌, ◌%◌, ◌<◌, ◌≤◌, ◌≡◌, ◌≢◌, refl, ap, sym, ◌∙◌, arith}
use warp_proxy.Base.{true, false, List, [], ◌∷◌, ◌++◌, Option, none, some, append_assoc}
use warp_proxy.Base.{
  ◌==◌, if◌then◌else◌, ◌&&◌, leb, le→ltb_false, length, length-append, get_elem?, All, take, drop,
  min, take-append, drop-append,
}
use warp_proxy.Probe.Checksum.{u16_bytes, from_be_bytes}
use warp_proxy.Probe.Packet.{Checked, done, ◌>>=◌, index, slice_range}
use warp_proxy.Probe.Reply.{skip_name, txt_at, parse_answers}
use warp_proxy.Probe.Name.{get_elem?-append, IsLabels, NameEnd, IsEnd, encoded, skip_name-encoded}

-- What stands behind the name of an answer: its type, its class and time to live, and its length.
answer_head : ℕ → List ℕ → ℕ → List ℕ → List ℕ
answer_head kind six rdlen tail = u16_bytes kind ++ six ++ u16_bytes rdlen ++ tail

pub index-append :
    (xs ys : List ℕ) (i k b : ℕ)
    → i ≡ length xs + k
    → get_elem? ys k ≡ some b
    → index (xs ++ ys) i ≡ done b
unfolding index
index-append xs ys i k b e h = rw (index, get_elem?-append xs ys i k e, h) refl

parse_answers_step :
    (lossy : List ℕ → List ℕ) (before : List ℕ) (kind rdlen left start pos : ℕ) (c d e f g h : ℕ)
    (tail : List ℕ)
    → kind < 65536
    → rdlen ≤ length tail
    → rdlen < 65536
    → pos ≡ length before
    → (let dns = before ++ answer_head kind (c ∷ d ∷ e ∷ f ∷ g ∷ h ∷ []) rdlen tail in
        skip_name dns start ≡ some pos
        → parse_answers lossy dns (suc left) start ≡ (
            if kind == 16 && leb 1 rdlen
            then (txt_at dns (pos + 10) >>= (λ txt. done (some (lossy txt))))
            else parse_answers lossy dns left (pos + 10 + rdlen)))
unfolding answer_head u16_bytes parse_answers
parse_answers_step lossy before kind rdlen left start pos c d e f g h tail small inside short at
      skipped =
    let bytes = answer_head kind (c ∷ d ∷ e ∷ f ∷ g ∷ h ∷ []) rdlen tail in
    let kind_word : from_be_bytes (kind / 256 % 256) (kind % 256) ≡ kind = omega arith in
    let rdlen_word : from_be_bytes (rdlen / 256 % 256) (rdlen % 256) ≡ rdlen = omega arith in
    let room =
      le→ltb_false (length (before ++ bytes)) (pos + 10)
        (omega (arith, length-append before bytes)) in
    let fits =
      le→ltb_false (length (before ++ bytes)) (pos + 10 + rdlen)
        (omega (arith, length-append before bytes)) in
    rw
      (
        parse_answers,
        skipped,
        room,
        index-append before bytes pos 0 _ (omega arith) refl,
        index-append before bytes (pos + 1) 1 _ (omega arith) refl,
        index-append before bytes (pos + 8) 8 _ (omega arith) refl,
        index-append before bytes (pos + 9) 9 _ (omega arith) refl,
        kind_word,
        rdlen_word,
        fits,
      )
      refl

-- The data of a record: of a TXT record by its first text and what follows it, or of another type.
pub data Data : Type 0 where
  txt : List ℕ → List ℕ → Data
  other : ℕ → List ℕ → Data

-- A record of an answer, by its name, which may be a pointer, its class and its time to live.
pub record Answer : Type 0 where
  pub labels : List (List ℕ)
  pub ending : NameEnd
  pub class : ℕ
  pub ttl : ℕ
  pub rdata : Data

kind_of : Data → ℕ
kind_of (txt t more) = 16
kind_of (other kind bytes) = kind

rdata_of : Data → List ℕ
rdata_of (txt t more) = length t ∷ t ++ more
rdata_of (other kind bytes) = bytes

abbrev class_ttl : Answer → List ℕ
class_ttl a =
    (a.class / 256 % 256)
    ∷ (a.class % 256)
    ∷ (a.ttl / 65536 / 256 % 256)
    ∷ (a.ttl / 65536 % 256)
    ∷ (a.ttl / 256 % 256)
    ∷ (a.ttl % 256)
    ∷ []

abbrev name_of : Answer → List ℕ
name_of a = encoded a.labels a.ending

-- The records of a message, and what follows them.
pub answers_bytes : List Answer → List ℕ → List ℕ
unfolding answer_head kind_of rdata_of
answers_bytes [] rest = rest
answers_bytes (a ∷ answers) rest =
    name_of a
    ++ answer_head (kind_of a.rdata) (class_ttl a) (length (rdata_of a.rdata))
        (rdata_of a.rdata ++ answers_bytes answers rest)

abbrev pub IsData : Data → Type 0
IsData (txt t more) = (length t < 256) × (length t + length more < 65535)
IsData (other kind bytes) = (kind < 65536) × (kind ≢ 16) × (length bytes < 65536)

abbrev pub IsAnswer : Answer → Type 0
IsAnswer a = IsLabels a.labels × IsEnd a.ending × IsData a.rdata

unfoldable pub text_or : Data → Option (List ℕ) → Option (List ℕ)
text_or (txt t more) later = some t
text_or (other kind bytes) later = later

unfoldable pub first_txt : List Answer → Option (List ℕ)
unfolding text_or
first_txt [] = none
first_txt (a ∷ answers) = text_or a.rdata (first_txt answers)

unfoldable pub lossy_of : (List ℕ → List ℕ) → Option (List ℕ) → Option (List ℕ)
lossy_of lossy none = none
lossy_of lossy (some t) = some (lossy t)

txt_at-append :
    (before t rest : List ℕ) (pos : ℕ)
    → pos ≡ length before
    → txt_at (before ++ (length t ∷ t ++ rest)) pos ≡ done t
unfolding txt_at slice_range index
txt_at-append before t rest pos e =
    let dns = before ++ length t ∷ (t ++ rest) in
    let to = pos + 1 + length t in
    let inside : to ≤ length dns =
      omega (arith, length-append before (length t ∷ (t ++ rest)), length-append t rest) in
    let cut : min to (length dns) ≡ to = omega arith in
    let front = before ++ length t ∷ [] in
    let size : pos + 1 ≡ length front = omega (arith, length-append before (length t ∷ [])) in
    let apart : dns ≡ front ++ t ++ rest =
      sym (append_assoc before (length t ∷ []) (t ++ rest)) ∙ sym (append_assoc front t rest) in
    let taken =
      ap (take to) apart
      ∙ take-append (front ++ t) rest to (omega (arith, length-append front t)) in
    let text : drop (pos + 1) (take to dns) ≡ t =
      ap (drop (pos + 1)) taken ∙ drop-append front t (pos + 1) size in
    let ahead = le→ltb_false to (pos + 1) (omega arith) in
    let fits = le→ltb_false (length dns) to inside in
    rw
      (
        txt_at,
        index-append before (length t ∷ (t ++ rest)) pos 0 _ (omega arith) refl,
        cut,
        slice_range,
        ahead,
        fits,
        text,
      )
      refl

rdata-short : (d : Data) → IsData d → (kind_of d < 65536) × (length (rdata_of d) < 65536)
unfolding kind_of rdata_of
rdata-short (txt t more) h = (omega arith, omega (arith, h.0, h.1, length-append t more))
rdata-short (other kind bytes) h = (h.0, h.2)
