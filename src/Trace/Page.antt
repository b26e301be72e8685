-- ===== src/Trace/Page.antt =====
-- A response as a server writes it: its head, a blank line, and a line for each field.
use warp_proxy.Base.{ℕ, ◌≡◌, ◌≢◌, refl, ap, ◌∙◌, arith, false, List, [], ◌∷◌, ◌++◌}
use warp_proxy.Base.{◌==◌, All, All-append, Bool-cases, inl, inr}
use warp_proxy.Base.Text.{Without, split, split-append}
use warp_proxy.Trace.{blank_at, extend, split_blank, second_part, strip_cr, ended_lines, lines_of}

-- The lines of the head, the first apart, and what stands behind the blank line.
pub page : List ℕ → List (List ℕ) → List ℕ → List ℕ
page line [] body = line ++ 13 ∷ 10 ∷ 13 ∷ 10 ∷ body
page line (next ∷ lines) body = line ++ 13 ∷ 10 ∷ page next lines body

abbrev pub IsLine : List ℕ → Type 0
IsLine line = Without 13 line × (line ≢ [])

second_part-extend :
    (c : ℕ) (parts : List (List ℕ)) → second_part (extend c parts) ≡ second_part parts
unfolding second_part extend
second_part-extend c [] = refl
second_part-extend c (part ∷ []) = refl
second_part-extend c (part ∷ more ∷ parts) = refl

blank_at-other : (c : ℕ) (t : List ℕ) → (c == 13) ≡ false → blank_at (c ∷ t) ≡ false
unfolding blank_at
blank_at-other c [] e = refl
blank_at-other c (x ∷ []) e = refl
blank_at-other c (x ∷ y ∷ []) e = refl
blank_at-other c (x ∷ y ∷ z ∷ t) e = rw e refl

blank_at-line : (c : ℕ) (t : List ℕ) → (c == 13) ≡ false → blank_at (13 ∷ 10 ∷ c ∷ t) ≡ false
unfolding blank_at
blank_at-line c [] e = refl
blank_at-line c (x ∷ t) e = rw e refl

-- A character that begins no separator is passed.
second_pass :
    (c : ℕ) (t : List ℕ)
    → blank_at (c ∷ t) ≡ false
    → second_part (split_blank 0 (c ∷ t)) ≡ second_part (split_blank 0 t)
unfolding split_blank
second_pass c t e = rw (split_blank, e) (second_part-extend c (split_blank 0 t))

second_part-Without :
    (line rest : List ℕ)
    → Without 13 line
    → second_part (split_blank 0 (line ++ rest)) ≡ second_part (split_blank 0 rest)
second_part-Without [] rest h = refl
second_part-Without (c ∷ line) rest h =
    second_pass c (line ++ rest) (blank_at-other c (line ++ rest) (ground (arith, h.0)))
    ∙ second_part-Without line rest h.1

split_blank-Without : (t : List ℕ) → Without 13 t → split_blank 0 t ≡ t ∷ []
unfolding split_blank extend
split_blank-Without [] h = refl
split_blank-Without (c ∷ t) h =
    rw (split_blank, blank_at-other c t (ground (arith, h.0)), split_blank-Without t h.1) refl

second_body :
    (body : List ℕ)
    → Without 13 body
    → second_part (split_blank 0 (13 ∷ 10 ∷ 13 ∷ 10 ∷ body)) ≡ body
unfolding split_blank blank_at second_part
second_body body h = rw (split_blank-Without body h) refl

second_next :
    (line rest : List ℕ)
    → IsLine line
    → second_part (split_blank 0 (13 ∷ 10 ∷ line ++ rest))
      ≡ second_part (split_blank 0 (line ++ rest))
second_next [] rest h = absurd (h.1 refl)
second_next (c ∷ line) rest h =
    second_pass 13 (10 ∷ c ∷ line ++ rest) (blank_at-line c (line ++ rest) (ground (arith, h.0.0)))
    ∙ second_pass 10 (c ∷ line ++ rest) (blank_at-other 10 (c ∷ line ++ rest) refl)

-- The body is what the fetch reads on.
pub second_part-page :
    (line : List ℕ) (lines : List (List ℕ)) (body : List ℕ)
    → All IsLine (line ∷ lines)
    → Without 13 body
    → second_part (split_blank 0 (page line lines body)) ≡ body
unfolding page
second_part-page line [] body h b =
    second_part-Without line (13 ∷ 10 ∷ 13 ∷ 10 ∷ body) h.0.0 ∙ second_body body b
second_part-page line (next ∷ []) body h b =
    second_part-Without line _ h.0.0
    ∙ second_next next (13 ∷ 10 ∷ 13 ∷ 10 ∷ body) h.1.0
    ∙ second_part-page next [] body h.1 b
second_part-page line (next ∷ more ∷ lines) body h b =
    second_part-Without line _ h.0.0
    ∙ second_next next (13 ∷ 10 ∷ page more lines body) h.1.0
    ∙ second_part-page next (more ∷ lines) body h.1 b

-- Lines that each end in a line feed.
pub fed : List (List ℕ) → List ℕ
fed [] = []
fed (line ∷ lines) = line ++ 10 ∷ fed lines

strip_cr-Without : (t : List ℕ) → Without 13 t → strip_cr t ≡ t
unfolding strip_cr
strip_cr-Without [] h = refl
strip_cr-Without (c ∷ []) h = ground (arith, h.0)
strip_cr-Without (c ∷ d ∷ t) h = ap (λ l. c ∷ l) (strip_cr-Without (d ∷ t) h.1)

ended_lines-cons :
    (line : List ℕ) (more : List ℕ) (lines : List (List ℕ))
    → ended_lines (line ∷ more ∷ lines) ≡ strip_cr line ∷ ended_lines (more ∷ lines)
unfolding ended_lines
ended_lines-cons [] more lines = refl
ended_lines-cons (c ∷ line) more lines = refl

split-some :
    (sep : ℕ) (t : List ℕ)
    → (part : List ℕ) × (parts : List (List ℕ)) × (split sep t ≡ part ∷ parts)
unfolding split
split-some sep [] = ([], [], refl)
split-some sep (c ∷ t) =
    let (part, parts, e) = split-some sep t in
    elim (Bool-cases (c == sep)) [
      | inl here ↦ ([], split sep t, rw here refl)
      | inr other ↦ (c ∷ part, parts, rw (other, e) refl)
    ]

ended_lines-split :
    (line t : List ℕ)
    → Without 13 line
    → ended_lines (line ∷ split 10 t) ≡ line ∷ ended_lines (split 10 t)
ended_lines-split line t h =
    let (part, parts, e) = split-some 10 t in
    rw e (
      ended_lines-cons line part parts
      ∙ ap (λ l. l ∷ ended_lines (part ∷ parts)) (strip_cr-Without line h))

pub lines_of-fed :
    (lines : List (List ℕ))
    → All (λ l. Without 10 l × Without 13 l) lines
    → lines_of (fed lines) ≡ lines
unfolding lines_of fed split ended_lines
lines_of-fed [] h = refl
lines_of-fed (line ∷ lines) h =
    ap ended_lines (split-append 10 line (fed lines) h.0.0)
    ∙ ended_lines-split line (fed lines) h.0.1
    ∙ ap (λ l. line ∷ l) (lines_of-fed lines h.1)

pub fed-Without :
    (lines : List (List ℕ)) → All (λ l. Without 10 l × Without 13 l) lines → Without 13 (fed lines)
unfolding fed
fed-Without [] h = tt
fed-Without (line ∷ lines) h =
    All-append (λ c. c ≢ 13) line (10 ∷ fed lines) h.0.1
      (λ e. absurd (omega (arith, e)), fed-Without lines h.1)
