-- ===== src/Control/Head/Guard.antt =====
-- What a request without the token can do, and how far the head is read.
use warp_proxy.Base.{
  ℕ, ◌+◌, ◌*◌, ◌≤◌, ◌≡◌, refl, ap, arith, Bool, true, false, ◌||◌, List, [], ◌∷◌, ◌++◌, Option,
  none, some, some-injective, ◌⊎◌, inl, inr,
}
use warp_proxy.Base.{Bool-cases, Option-cases, length, length-append, ltb, if◌then◌else◌}
use warp_proxy.Base.Text.{text, same, same_iff}
use warp_proxy.Pool.{Pool}
use warp_proxy.Control.{Answers}
use warp_proxy.Control.Head.{
  Reply, answered, dispatch, handle, read_head, ends_head, presented, tail_lines, split_lines,
  split_whitespace, first_or_empty,
}

is_answered : Reply → Bool
is_answered (answered r) = true
is_answered _ = false

-- What a request has done that did not present the token.
pub Guarded : Pool → Reply × Pool → Type 0
unfolding is_answered
Guarded p (reply, q) = (q ≡ p) × (is_answered reply ≡ false)

dispatch-Guarded :
    (p : Pool) (a : Answers) (token : List ℕ) (lines : List (List ℕ))
    → (presented (tail_lines lines) ≡ token) ⊎ Guarded p (dispatch p a token lines)
unfolding dispatch Guarded is_answered
dispatch-Guarded p a token lines =
    elim (Bool-cases
      (same (first_or_empty (split_whitespace (first_or_empty lines))) (text "OPTIONS"))) [
        | inl preflight ↦ inr (rw (dispatch, preflight) (refl, refl))
        | inr method ↦ elim (Bool-cases (same (presented (tail_lines lines)) token)) [
          | inl agrees ↦ inl ((same_iff (presented (tail_lines lines)) token).0 agrees)
          | inr differs ↦ inr (rw (dispatch, method, differs) (refl, refl))
        ]
      ]

-- A connection that has any effect on the pool, or is told its status, has sent a head that presents the
-- token; every other one leaves the pool as it is.
pub handle-Guarded :
    (from_utf8_lossy : List ℕ → List ℕ) (p : Pool) (a : Answers) (token : List ℕ)
    (reads : List (Option (List ℕ)))
    → ((buf : List ℕ) × (read_head [] reads ≡ some buf)
        × (presented (tail_lines (split_lines (from_utf8_lossy buf))) ≡ token))
      ⊎ Guarded p (handle from_utf8_lossy p a token reads)
unfolding handle Guarded is_answered
handle-Guarded from_utf8_lossy p a token reads = elim (Option-cases (read_head [] reads)) [
  | inl failed ↦ inr (rw (handle, failed) (refl, refl))
  | inr (buf, read) ↦ elim (dispatch-Guarded p a token (split_lines (from_utf8_lossy buf))) [
    | inl agrees ↦ inl (buf, read, agrees)
    | inr guarded ↦ inr (rw (handle, read) guarded)
  ]
]

-- No more than 2048 bytes in a read.
pub Small : List (Option (List ℕ)) → Type 0
Small [] = Unit
Small (none ∷ reads) = Small reads
Small (some bytes ∷ reads) = (length bytes ≤ 2048) × Small reads

-- The end of a turn.
turn-length :
    (ended full : Bool) (next out : List ℕ) (rest : Option (List ℕ)) (n : ℕ)
    → length next ≤ n
    → (full ≡ false → rest ≡ some out → length out ≤ n)
    → (if ended || full then some next else rest) ≡ some out
    → length out ≤ n
turn-length true full next out rest n le later e =
    omega (arith, ap length (some-injective next out e))
turn-length false true next out rest n le later e =
    omega (arith, ap length (some-injective next out e))
turn-length false false next out rest n le later e = later refl e

read_head_from :
    (buf : List ℕ) (reads : List (Option (List ℕ))) (out : List ℕ)
    → length buf ≤ 16 * 1024
    → Small reads
    → read_head buf reads ≡ some out
    → length out ≤ 16 * 1024 + 2048
unfolding read_head Small
read_head_from buf [] out le small e = omega (arith, ap length (some-injective buf out e))
read_head_from buf (none ∷ reads) out le small e = absurd (ground (arith, e))
read_head_from buf (some [] ∷ reads) out le small e =
    omega (arith, ap length (some-injective buf out e))
read_head_from buf (some (b ∷ bytes) ∷ reads) out le small e =
    let next = buf ++ b ∷ bytes in
    turn-length (ends_head next) (ltb (16 * 1024) (length next)) next out (read_head next reads)
      (16 * 1024 + 2048) (omega (arith, length-append buf (b ∷ bytes), small.0))
      (λ room again. read_head_from next reads out (ground (arith, room)) small.1 again) e

-- The head that is read has at most 18432 bytes, whatever the client sends, with reads of up to 2048.
pub read_head-length :
    (reads : List (Option (List ℕ))) (out : List ℕ)
    → Small reads
    → read_head [] reads ≡ some out
    → length out ≤ 16 * 1024 + 2048
read_head-length reads out small e = read_head_from [] reads out (omega arith) small e
