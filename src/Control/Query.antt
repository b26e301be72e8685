-- ===== src/Control/Query.antt =====
-- The parameters of a query string.
use warp_proxy.Base.{
  ℕ, ◌≡◌, refl, ap, ◌∙◌, arith, List, [], ◌∷◌, ◌++◌, Option, none, some, All, map, if◌then◌else◌,
}
use warp_proxy.Base.Text.{
  same, split, split_once, Without, split_once-append, split-Without, split-append,
}
use warp_proxy.Control.{param, find_pair}

abbrev amp : ℕ
amp = 0x26

abbrev equals : ℕ
equals = 0x3d

pair_text : List ℕ × List ℕ → List ℕ
pair_text (k, v) = k ++ equals ∷ v

-- A query string: the pairs, with `&` between them.
pub query_of : List (List ℕ × List ℕ) → List ℕ
unfolding pair_text
query_of [] = []
query_of (p ∷ []) = pair_text p
query_of (p ∷ q ∷ ps) = pair_text p ++ amp ∷ query_of (q ∷ ps)

-- The value of the first pair with this key.
pub lookup : List ℕ → List (List ℕ × List ℕ) → Option (List ℕ)
lookup key [] = none
lookup key ((k, v) ∷ ps) = if same k key then some v else lookup key ps

-- Keys have neither `&` nor `=`, values no `&`.
abbrev pub Plain : List ℕ × List ℕ → Type 0
Plain (k, v) = Without amp k × Without equals k × Without amp v

pair_text-Without : (k v : List ℕ) → Without amp k → Without amp v → Without amp (pair_text (k, v))
unfolding pair_text
pair_text-Without [] v hk hv = (omega arith, hv)
pair_text-Without (c ∷ k) v hk hv = (hk.0, pair_text-Without k v hk.1 hv)

split-query_of :
    (p : List ℕ × List ℕ) (ps : List (List ℕ × List ℕ))
    → All Plain (p ∷ ps)
    → split amp (query_of (p ∷ ps)) ≡ map pair_text (p ∷ ps)
unfolding query_of
split-query_of (k, v) [] h =
    split-Without amp (pair_text (k, v)) (pair_text-Without k v h.0.0 h.0.2)
split-query_of (k, v) (q ∷ ps) h =
    split-append amp (pair_text (k, v)) (query_of (q ∷ ps)) (pair_text-Without k v h.0.0 h.0.2)
    ∙ ap (λ l. pair_text (k, v) ∷ l) (split-query_of q ps h.1)

find_pair-pairs :
    (key : List ℕ) (ps : List (List ℕ × List ℕ))
    → All Plain ps
    → find_pair key (map pair_text ps) ≡ lookup key ps
unfolding find_pair lookup pair_text
find_pair-pairs key [] h = refl
find_pair-pairs key ((k, v) ∷ ps) h =
    rw (find_pair, split_once-append equals k v h.0.1, find_pair-pairs key ps h.1) refl

-- On the query string of pairs whose keys have neither `&` nor `=` and whose values have no `&`, `param`
-- gives the value of the first pair with the key, and nothing if there is none.
pub param-query_of :
    (key : List ℕ) (ps : List (List ℕ × List ℕ))
    → All Plain ps
    → param (query_of ps) key ≡ lookup key ps
unfolding param query_of find_pair lookup split split_once
param-query_of key [] h = refl
param-query_of key (p ∷ ps) h =
    ap (λ l. find_pair key l) (split-query_of p ps h) ∙ find_pair-pairs key (p ∷ ps) h
