-- ===== src/Probe/Name.antt =====
-- `skip_name` over the names of messages, and that its loop ends.
use warp_proxy.Base.{
  Bool, true, false, ◌==◌, ◌≢◌, bit_and, if◌then◌else◌, ℕ, zero, suc, ◌+◌, ◌%◌, ◌<◌, ◌≤◌, ◌≡◌, refl,
  ap, sym, ◌∙◌, arith,
}
use warp_proxy.Base.{inl, inr, List, [], ◌∷◌, ◌++◌, none, some, append_assoc}
use warp_proxy.Base.{length, length-append, get_elem?, Option-cases, All}
use warp_proxy.Base.Bits.{top_two, top_two_set}
use warp_proxy.Probe.Packet.{name_bytes}
use warp_proxy.Probe.Reply.{Skipped, behind, past_end, stuck, skip_loop, skipped_to, skip_name}

pub get_elem?-append :
    (xs ys : List ℕ) (i k : ℕ) → i ≡ length xs + k → get_elem? (xs ++ ys) i ≡ get_elem? ys k
get_elem?-append [] ys i k e = ap (get_elem? ys) (omega arith)
get_elem?-append (x ∷ xs) ys zero k e = absurd (omega arith)
get_elem?-append (x ∷ xs) ys (suc i) k e = get_elem?-append xs ys i k (omega arith)

-- Labels as DNS allows them.
abbrev pub IsLabels : List (List ℕ) → Type 0
IsLabels labels = All (λ l. (0 < length l) × (length l < 64)) labels

-- How a name of a message ends: at the root, or with a pointer to the rest, by the six low bits of its
-- first byte and the second.
pub data NameEnd : Type 0 where
  root : NameEnd
  pointer : ℕ → ℕ → NameEnd

abbrev pub IsEnd : NameEnd → Type 0
IsEnd root = Unit
IsEnd (pointer high low) = high < 64

-- A name as RFC 1035 writes it.
pub encoded : List (List ℕ) → NameEnd → List ℕ
encoded [] root = 0 ∷ []
encoded [] (pointer high low) = (0xc0 + high) ∷ low ∷ []
encoded (label ∷ labels) end = length label ∷ label ++ encoded labels end

encoded-positive : (labels : List (List ℕ)) (end : NameEnd) → 1 ≤ length (encoded labels end)
unfolding encoded
encoded-positive [] root = omega arith
encoded-positive [] (pointer high low) = omega arith
encoded-positive (l ∷ labels) end = omega arith

-- One round at a label, and the round at the end of the name.
skip_loop_round :
    (fuel : ℕ) (before rest : List ℕ) (len pos : ℕ)
    → pos ≡ length before
    → 0 < len
    → len < 64
    → skip_loop (suc fuel) (before ++ len ∷ rest) pos
      ≡ skip_loop fuel (before ++ len ∷ rest) (pos + (1 + len))
unfolding skip_loop
skip_loop_round fuel before rest len pos e positive small =
    rw (skip_loop, get_elem?-append before (len ∷ rest) pos 0 (omega arith), top_two len small)
      (ground arith)

skip_loop_end :
    (fuel : ℕ) (before rest : List ℕ) (pos : ℕ)
    → pos ≡ length before
    → skip_loop (suc fuel) (before ++ 0 ∷ rest) pos ≡ behind (pos + 1)
unfolding skip_loop
skip_loop_end fuel before rest pos e =
    rw (skip_loop, get_elem?-append before (0 ∷ rest) pos 0 (omega arith)) refl

skip_loop_pointer :
    (fuel : ℕ) (before rest : List ℕ) (high pos : ℕ)
    → pos ≡ length before
    → high < 64
    → skip_loop (suc fuel) (before ++ (0xc0 + high) ∷ rest) pos ≡ behind (pos + 2)
unfolding skip_loop
skip_loop_pointer fuel before rest high pos e small =
    rw
      (
        skip_loop,
        get_elem?-append before ((0xc0 + high) ∷ rest) pos 0 (omega arith),
        top_two_set high small,
      )
      refl

skip_loop-encoded :
    (fuel : ℕ) (before : List ℕ) (labels : List (List ℕ)) (end : NameEnd) (rest : List ℕ) (pos : ℕ)
    → IsLabels labels
    → IsEnd end
    → pos ≡ length before
    → length (encoded labels end) ≤ fuel
    → skip_loop fuel (before ++ (encoded labels end ++ rest)) pos
      ≡ behind (pos + length (encoded labels end))
unfolding encoded
skip_loop-encoded zero before labels end rest pos h ok e enough =
    absurd (omega (arith, encoded-positive labels end))
skip_loop-encoded (suc fuel) before [] root rest pos h ok e enough =
    skip_loop_end fuel before rest pos e
skip_loop-encoded (suc fuel) before [] (pointer high low) rest pos h ok e enough =
    skip_loop_pointer fuel before (low ∷ rest) high pos e ok
skip_loop-encoded (suc fuel) before (label ∷ labels) end rest pos h ok e enough =
    let len = length label in
    let left = encoded labels end ++ rest in
    let on : (before ++ (len ∷ label)) ++ left ≡ before ++ (len ∷ (label ++ left)) =
      append_assoc before (len ∷ label) left in
    let next =
      skip_loop-encoded fuel (before ++ len ∷ label) labels end rest (pos + (1 + len)) h.1 ok
        (omega (arith, length-append before (len ∷ label)))
        (omega (arith, length-append label (encoded labels end))) in
    rw (append_assoc label (encoded labels end) rest) (
      skip_loop_round fuel before (label ++ left) len pos e h.0.0 h.0.1
      ∙ ap (λ dns. skip_loop fuel dns (pos + (1 + len))) (sym on)
      ∙ next
      ∙ ap behind (omega (arith, length-append label (encoded labels end))))

-- `skip_name` passes over a name exactly, whichever way it ends.
pub skip_name-encoded :
    (before : List ℕ) (labels : List (List ℕ)) (end : NameEnd) (rest : List ℕ)
    → IsLabels labels
    → IsEnd end
    → skip_name (before ++ (encoded labels end ++ rest)) (length before)
      ≡ some (length before + length (encoded labels end))
unfolding skip_name skipped_to
skip_name-encoded before labels end rest h ok = ap skipped_to (
    skip_loop-encoded (suc (length (before ++ (encoded labels end ++ rest)))) before labels end rest
      (length before) h ok refl
      (omega (
        arith,
        length-append before (encoded labels end ++ rest),
        length-append (encoded labels end) rest,
      )))

name_bytes-encoded :
    (labels : List (List ℕ)) → IsLabels labels → name_bytes labels ≡ encoded labels root
unfolding name_bytes encoded
name_bytes-encoded [] h = refl
name_bytes-encoded (label ∷ labels) h =
    let small : length label % 256 ≡ length label = omega (arith, h.0.1) in
    rw (small, name_bytes-encoded labels h.1) refl

-- It passes over a name of `build_dns_txt_query`.
pub skip_name-name_bytes :
    (before : List ℕ) (labels : List (List ℕ)) (rest : List ℕ)
    → IsLabels labels
    → skip_name (before ++ (name_bytes labels ++ rest)) (length before)
      ≡ some (length before + length (name_bytes labels))
skip_name-name_bytes before labels rest h =
    rw (name_bytes-encoded labels h) (skip_name-encoded before labels root rest h tt)

get_elem?-past : (xs : List ℕ) (i : ℕ) → length xs ≤ i → get_elem? xs i ≡ none
get_elem?-past [] i h = refl
get_elem?-past (x ∷ xs) zero h = absurd (omega arith)
get_elem?-past (x ∷ xs) (suc i) h = get_elem?-past xs i (omega arith)

skip_loop-past :
    (fuel : ℕ) (dns : List ℕ) (pos : ℕ) → length dns ≤ pos → skip_loop (suc fuel) dns pos ≡ past_end
unfolding skip_loop
skip_loop-past fuel dns pos h = rw (skip_loop, get_elem?-past dns pos h) refl

-- With a round more than there are bytes left, further rounds change nothing.
skip_loop-same :
    (n m : ℕ) (dns : List ℕ) (pos : ℕ)
    → length dns ≤ pos + n
    → length dns ≤ pos + m
    → skip_loop (suc n) dns pos ≡ skip_loop (suc m) dns pos
unfolding skip_loop
skip_loop-same zero m dns pos h k =
    skip_loop-past zero dns pos (omega arith) ∙ sym (skip_loop-past m dns pos (omega arith))
skip_loop-same (suc n) zero dns pos h k =
    skip_loop-past (suc n) dns pos (omega arith) ∙ sym (skip_loop-past zero dns pos (omega arith))
skip_loop-same (suc n) (suc m) dns pos h k = elim (Option-cases (get_elem? dns pos)) [
  | inl past ↦ rw (skip_loop, past) refl
  | inr (len, e) ↦
      rw (skip_loop, e, skip_loop-same n m dns (pos + (1 + len)) (omega arith) (omega arith)) refl
]

is_stuck : Skipped → Bool
is_stuck stuck = true
is_stuck _ = false

if_free :
    (b : Bool) (r s : Skipped)
    → is_stuck r ≡ false
    → is_stuck s ≡ false
    → is_stuck (if b then r else s) ≡ false
if_free true r s h k = h
if_free false r s h k = k

skip_loop-free :
    (n : ℕ) (dns : List ℕ) (pos : ℕ)
    → length dns ≤ pos + n
    → is_stuck (skip_loop (suc n) dns pos) ≡ false
unfolding skip_loop is_stuck
skip_loop-free zero dns pos h = rw (skip_loop-past zero dns pos (omega arith)) refl
skip_loop-free (suc n) dns pos h = elim (Option-cases (get_elem? dns pos)) [
  | inl past ↦ rw (skip_loop, past) refl
  | inr (len, e) ↦
      rw (skip_loop, e)
        (if_free (bit_and len 0xc0 == 0xc0) _ _ refl
          (if_free (len == 0) _ _ refl (skip_loop-free n dns (pos + (1 + len)) (omega arith))))
]

-- The loop of `skip_name` ends: from any place in any message, on every fuel of more rounds than bytes
-- are left, it never runs out, and it ends as it does on the fuel that `skip_name` gives.
pub skip_loop-enough :
    (fuel : ℕ) (dns : List ℕ) (pos : ℕ)
    → length dns ≤ pos + fuel
    → (skip_loop (suc fuel) dns pos ≢ stuck)
      × (skip_loop (suc fuel) dns pos ≡ skip_loop (suc (length dns)) dns pos)
unfolding is_stuck
skip_loop-enough fuel dns pos h = (
  λ e. let apart : false ≡ true = sym (skip_loop-free fuel dns pos h) ∙ ap is_stuck e in cc apart,
  skip_loop-same fuel (length dns) dns pos h (omega arith),
)
