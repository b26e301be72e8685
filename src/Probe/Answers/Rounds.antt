-- ===== src/Probe/Answers/Rounds.antt =====
-- What the loop of `parse_first_txt` makes of the records of a message.
use warp_proxy.Base.{ℕ, suc, ◌+◌, ◌/◌, ◌%◌, ◌≡◌, refl, ap, sym, ◌∙◌, arith}
use warp_proxy.Base.{true, false, List, [], ◌∷◌, ◌++◌, Option, some, append_assoc}
use warp_proxy.Base.{◌==◌, if◌then◌else◌, ◌&&◌, leb, length, length-append, All}
use warp_proxy.Probe.Checksum.{u16_bytes}
use warp_proxy.Probe.Packet.{Checked, done, ◌>>=◌}
use warp_proxy.Probe.Reply.{skip_name, txt_at, parse_answers}
use warp_proxy.Probe.Name.{skip_name-encoded}
use warp_proxy.Probe.Answers.{
  answer_head, parse_answers_step, Data, txt, other, Answer, kind_of, rdata_of, class_ttl, name_of,
  answers_bytes, IsData, IsAnswer, text_or, first_txt, lossy_of, txt_at-append, rdata-short,
}

module _ (lossy : List ℕ → List ℕ) where
  -- The record `a` behind `before`, up to its data.
  abbrev with_head : List ℕ → Answer → List ℕ
  with_head before a =
      (before ++ name_of a)
      ++ answer_head (kind_of a.rdata) (class_ttl a) (length (rdata_of a.rdata)) []

  length-with_head :
      (before : List ℕ) (a : Answer)
      → length (with_head before a) ≡ length before + length (name_of a) + 10
  unfolding answer_head u16_bytes
  length-with_head before a = omega (
    arith,
    length-append (before ++ name_of a)
        (answer_head (kind_of a.rdata) (class_ttl a) (length (rdata_of a.rdata)) []),
    length-append before (name_of a),
  )

  -- A message at the record `a`, cut behind its name and behind its head.
  at_name :
      (before : List ℕ) (a : Answer) (answers : List Answer) (rest : List ℕ)
      → before ++ answers_bytes (a ∷ answers) rest
        ≡ (before ++ name_of a)
          ++ answer_head
              (kind_of a.rdata)
              (class_ttl a)
              (length (rdata_of a.rdata))
              (rdata_of a.rdata ++ answers_bytes answers rest)
  unfolding answers_bytes
  at_name before a answers rest = sym (append_assoc before (name_of a) _)

  at_rdata :
      (before : List ℕ) (a : Answer) (tail : List ℕ)
      → (before ++ name_of a)
          ++ answer_head (kind_of a.rdata) (class_ttl a) (length (rdata_of a.rdata)) tail
        ≡ with_head before a ++ tail
  unfolding answer_head u16_bytes
  at_rdata before a tail = sym (append_assoc (before ++ name_of a) _ tail)

  -- What a round makes of the data of a record, when the rounds behind it give `later`.
  read_data :
      (d : Data) (before tail dns : List ℕ) (pos : ℕ) (later : Option (List ℕ))
      (behind : Checked (Option (List ℕ)))
      → IsData d
      → dns ≡ before ++ (rdata_of d ++ tail)
      → pos ≡ length before
      → behind ≡ done (lossy_of lossy later)
      → (if kind_of d == 16 && leb 1 (length (rdata_of d))
          then (txt_at dns pos >>= (λ t. done (some (lossy t))))
          else behind)
        ≡ done (lossy_of lossy (text_or d later))
  unfolding kind_of rdata_of text_or lossy_of
  read_data (txt t more) before tail dns pos later behind ok e at next =
      let some_data : leb 1 (length (length t ∷ t ++ more)) ≡ true = ground arith in
      let text : txt_at dns pos ≡ done t =
        ap (λ bytes. txt_at bytes pos)
          (e ∙ ap (λ l. before ++ length t ∷ l) (append_assoc t more tail))
        ∙ txt_at-append before t (more ++ tail) pos at in
      rw (some_data, text) refl
  read_data (other kind bytes) before tail dns pos later behind ok e at next =
      let not_txt : (kind == 16) ≡ false = ground (arith, ok.1) in rw not_txt next

  -- A round over the record `a`, when the rounds behind it give `later`.
  parse_answers_round :
      (before : List ℕ) (a : Answer) (tail : List ℕ) (left : ℕ) (later : Option (List ℕ))
      → IsAnswer a
      → (let dns =
            (before ++ name_of a)
            ++ answer_head
                (kind_of a.rdata)
                (class_ttl a)
                (length (rdata_of a.rdata))
                (rdata_of a.rdata ++ tail) in
          parse_answers lossy dns left (length (with_head before a ++ rdata_of a.rdata))
            ≡ done (lossy_of lossy later)
          → parse_answers lossy dns (suc left) (length before)
            ≡ done (lossy_of lossy (text_or a.rdata later)))
  parse_answers_round before a tail left later (labels, end, ok) next =
      let d = a.rdata in
      let (kind, short) = rdata-short d ok in
      let pos = length before + length (name_of a) in
      let head = answer_head (kind_of d) (class_ttl a) (length (rdata_of d)) (rdata_of d ++ tail) in
      let dns = (before ++ name_of a) ++ head in
      let skipped : skip_name dns (length before) ≡ some pos =
        ap (λ b. skip_name b (length before)) (append_assoc before (name_of a) head)
        ∙ skip_name-encoded before a.labels a.ending head labels end in
      let behind : parse_answers lossy dns left (pos + 10 + length (rdata_of d))
          ≡ done (lossy_of lossy later) =
        ap (parse_answers lossy dns left) (
          omega (arith, length-append (with_head before a) (rdata_of d), length-with_head before a))
        ∙ next in
      parse_answers_step lossy (before ++ name_of a) (kind_of d) (length (rdata_of d)) left
        (length before) pos (a.class / 256 % 256) (a.class % 256) (a.ttl / 65536 / 256 % 256)
        (a.ttl / 65536 % 256) (a.ttl / 256 % 256) (a.ttl % 256) (rdata_of d ++ tail) kind
        (omega (arith, length-append (rdata_of d) tail)) short
        (omega (arith, length-append before (name_of a))) skipped
      ∙ read_data d (with_head before a) tail dns (pos + 10) later _ ok
          (at_rdata before a (rdata_of d ++ tail)) (omega (arith, length-with_head before a)) behind

  -- The answers of a message, from where the first one stands: what follows them is not read.
  pub parse_answers-answers_bytes :
      (before : List ℕ) (answers : List Answer) (rest : List ℕ)
      → All IsAnswer answers
      → parse_answers lossy (before ++ answers_bytes answers rest) (length answers) (length before)
        ≡ done (lossy_of lossy (first_txt answers))
  unfolding first_txt lossy_of parse_answers
  parse_answers-answers_bytes before [] rest ok = refl
  parse_answers-answers_bytes before (a ∷ answers) rest ok =
      let cut = at_name before a answers rest in
      let d = a.rdata in
      let tail = answers_bytes answers rest in
      let front = with_head before a ++ rdata_of d in
      let at_next : (before ++ name_of a)
            ++ answer_head (kind_of d) (class_ttl a) (length (rdata_of d)) (rdata_of d ++ tail)
          ≡ front ++ tail =
        at_rdata before a (rdata_of d ++ tail) ∙ sym (append_assoc (with_head before a) _ tail) in
      ap (λ bytes. parse_answers lossy bytes (suc (length answers)) (length before)) cut
      ∙ parse_answers_round before a tail (length answers) (first_txt answers) ok.0 (
          ap (λ bytes. parse_answers lossy bytes (length answers) (length front)) at_next
          ∙ parse_answers-answers_bytes front answers rest ok.1)
