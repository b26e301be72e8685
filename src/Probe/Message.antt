-- ===== src/Probe/Message.antt =====
-- `parse_first_txt` on the whole reply to a question of `build_dns_txt_query`.
use warp_proxy.Base.{ℕ, ◌+◌, ◌/◌, ◌%◌, ◌<◌, ◌≡◌, refl, ap, sym, ◌∙◌, arith}
use warp_proxy.Base.{false, List, [], ◌∷◌, ◌++◌, Option, none, append_assoc}
use warp_proxy.Base.{◌==◌, if◌then◌else◌, le→ltb_false, length, length-append, All}
use warp_proxy.Base.Text.{split}
use warp_proxy.Probe.Checksum.{u16_bytes, from_be_bytes}
use warp_proxy.Probe.Packet.{Checked, done, name_bytes}
use warp_proxy.Probe.Reply.{parse_answers, parse_first_txt}
use warp_proxy.Probe.Name.{IsLabels, skip_name-name_bytes}
use warp_proxy.Probe.Answers.Rounds.{parse_answers-answers_bytes}
use warp_proxy.Probe.Answers.{Answer, IsAnswer, answers_bytes, first_txt, lossy_of}

-- Without answers no text is read, and there is none.
no_answers :
    (lossy : List ℕ → List ℕ) (answers : List Answer) (behind : Checked (Option (List ℕ)))
    → behind ≡ done (lossy_of lossy (first_txt answers))
    → (if length answers == 0 then done none else behind)
      ≡ done (lossy_of lossy (first_txt answers))
unfolding lossy_of first_txt
no_answers lossy [] behind e = refl
no_answers lossy (a ∷ answers) behind e =
    let some_answer : (length (a ∷ answers) == 0) ≡ false = ground arith in rw some_answer e

-- A reply by the fields of its header.
module _ (id flags authority additional : ℕ) where
  abbrev counts : List Answer → List ℕ
  counts answers =
      u16_bytes id
      ++ u16_bytes flags
      ++ u16_bytes 1
      ++ u16_bytes (length answers)
      ++ u16_bytes authority
      ++ u16_bytes additional

  -- The end of the question, and the records.
  abbrev question_end : ℕ → List ℕ
  question_end qclass = u16_bytes 16 ++ u16_bytes qclass

  pub reply_bytes : List ℕ → ℕ → List Answer → List ℕ → List ℕ
  reply_bytes name qclass answers rest =
      counts answers
      ++ (name_bytes (split 0x2e name) ++ (question_end qclass ++ answers_bytes answers rest))

  -- The reply to one question is read as the text of its first TXT record, and as no text if it has no
  -- such record, whatever its flags and the bytes behind its answers are. The records may have any names
  -- of labels of 1 to 63 bytes that end at the root or with a pointer, any class and time to live, and
  -- any type but TXT before that record; a TXT record holds a text of less than 256 bytes, and no
  -- record more than 65535.
  pub parse_first_txt-reply_bytes :
      (lossy : List ℕ → List ℕ) (name : List ℕ) (qclass : ℕ) (answers : List Answer) (rest : List ℕ)
      → IsLabels (split 0x2e name)
      → All IsAnswer answers
      → length answers < 65536
      → parse_first_txt lossy (reply_bytes name qclass answers rest)
        ≡ done (lossy_of lossy (first_txt answers))
  unfolding parse_first_txt reply_bytes u16_bytes
  parse_first_txt-reply_bytes lossy name qclass answers rest labels ok few =
      let name_part = name_bytes (split 0x2e name) in
      let records = answers_bytes answers rest in
      let tail = question_end qclass ++ records in
      let dns = counts answers ++ (name_part ++ tail) in
      let long = le→ltb_false (length dns) 12 (omega arith) in
      let count : from_be_bytes (length answers / 256 % 256) (length answers % 256)
          ≡ length answers =
        omega arith in
      let skipped = skip_name-name_bytes (counts answers) (split 0x2e name) tail labels in
      let front = counts answers ++ name_part ++ question_end qclass in
      let apart : dns ≡ front ++ records =
        sym (append_assoc (counts answers) name_part tail)
        ∙ sym (append_assoc (counts answers ++ name_part) (question_end qclass) records) in
      let pos = length (counts answers) + length name_part + 4 in
      let at_front : pos ≡ length front = omega (
        arith,
        length-append (counts answers ++ name_part) (question_end qclass),
        length-append (counts answers) name_part,
      ) in
      let behind =
        ap (λ (k : ℕ). parse_answers lossy dns k pos) count
        ∙ ap (λ bytes. parse_answers lossy bytes (length answers) pos) apart
        ∙ ap (parse_answers lossy (front ++ records) (length answers)) at_front
        ∙ parse_answers-answers_bytes lossy front answers rest ok in
      rw (long, count, skipped) (no_answers lossy answers _ behind)
