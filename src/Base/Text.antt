-- ===== src/Base/Text.antt =====
-- Texts as lists of code points, and what the code uses of `str`.
use Prim.Native.Nat.{ℕ, ◌-◌}
use Prim.Native.String.{String}
use Prim.Native.Char.{code}
use mathlib.Core.Path.{◌≡◌, refl}
use mathlib.Core.Bool.{Bool, true, false}
use mathlib.Core.Option.{Option, none, some}
use mathlib.Core.List.{List, [], ◌∷◌, ◌++◌}
use native.Mathlib.Omega.{arith}
use mathlib.Core.Logic.{◌≢◌}
use warp_proxy.Base.Tests.{ltb, ◌==◌, ==_refl, if◌then◌else◌}
use warp_proxy.Base.Lists.{length, drop, All}

-- The code points of a literal.
abbrev pub text : String → List ℕ
text String.[] = []
text (String.◌∷◌ c s) = code c ∷ text s

-- Equality of texts.
unfoldable pub same : List ℕ → List ℕ → Bool
same [] [] = true
same (x ∷ xs) (y ∷ ys) = let rest = same xs ys in if x == y then rest else false
same _ _ = false

pub same_iff : (s t : List ℕ) → ((same s t ≡ true) → s ≡ t) × ((s ≡ t) → same s t ≡ true)
unfolding same
same_iff [] [] = (λ e. refl, λ e. refl)
same_iff [] (y ∷ ys) = (λ e. absurd (ground arith), λ e. absurd (ground arith))
same_iff (x ∷ xs) [] = (λ e. absurd (ground arith), λ e. absurd (ground arith))
same_iff (x ∷ xs) (y ∷ ys) =
    (λ e. grind (arith, (same_iff xs ys).0), λ e. grind (arith, (same_iff xs ys).1))

-- `str::ends_with`
unfoldable pub ends_with : List ℕ → List ℕ → Bool
unfolding same
ends_with text suffix =
    if ltb (length text) (length suffix)
    then false
    else same (drop (length text - length suffix) text) suffix

cons_head : ℕ → List (List ℕ) → List (List ℕ)
cons_head c [] = (c ∷ []) ∷ []
cons_head c (t ∷ ts) = (c ∷ t) ∷ ts

-- `str::split` at a character.
unfoldable pub split : ℕ → List ℕ → List (List ℕ)
unfolding cons_head
split sep [] = [] ∷ []
split sep (c ∷ t) = let rest = split sep t in if c == sep then [] ∷ rest else cons_head c rest

-- `str::split_once` at a character.
unfoldable pub split_once : ℕ → List ℕ → Option (List ℕ × List ℕ)
split_once sep [] = none
split_once sep (c ∷ t) =
    let rest = split_once sep t in
    if c == sep then some ([], t) else (elim rest [ none ↦ none | some (k, v) ↦ some (c ∷ k, v) ])

-- A text without the character `sep`.
abbrev pub Without : ℕ → List ℕ → Type 0
Without sep t = All (λ c. c ≢ sep) t

pub split_once-append :
    (sep : ℕ) (k v : List ℕ) → Without sep k → split_once sep (k ++ sep ∷ v) ≡ some (k, v)
unfolding split_once
split_once-append sep [] v h = rw (==_refl sep) refl
split_once-append sep (c ∷ k) v h =
    let other : (c == sep) ≡ false = ground (arith, h.0) in
    rw (other, split_once-append sep k v h.1) refl

pub split-Without : (sep : ℕ) (t : List ℕ) → Without sep t → split sep t ≡ t ∷ []
unfolding split
split-Without sep [] h = refl
split-Without sep (c ∷ t) h =
    let other : (c == sep) ≡ false = ground (arith, h.0) in rw (other, split-Without sep t h.1) refl

pub split-append :
    (sep : ℕ) (t rest : List ℕ) → Without sep t → split sep (t ++ sep ∷ rest) ≡ t ∷ split sep rest
unfolding split
split-append sep [] rest h = rw (==_refl sep) refl
split-append sep (c ∷ t) rest h =
    let other : (c == sep) ≡ false = ground (arith, h.0) in
    rw (other, split-append sep t rest h.1) refl
