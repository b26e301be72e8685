-- ===== src/Base/Table.antt =====
-- What the code uses of a `HashMap` keyed by numbers: the entries, of which a key has one at most.
use Prim.Native.Nat.{ℕ}
use mathlib.Core.Path.{◌≡◌, refl, ◌∙◌}
use mathlib.Core.Logic.{◌≢◌, inl, inr}
use mathlib.Core.Option.{Option, none, some}
use mathlib.Core.List.{List, [], ◌∷◌}
use native.Mathlib.Omega.{arith}
use warp_proxy.Base.Tests.{◌==◌, Bool-cases, if◌then◌else◌}

abbrev pub Table : Type 0 → Type 0
Table A = List (ℕ × A)

module _ {A : Type 0} where
  abbrev pub lookup : ℕ → Table A → Option A
  lookup key [] = none
  lookup key ((other, a) ∷ rest) =
      let behind = lookup key rest in if key == other then some a else behind

  abbrev pub Unique : Table A → Type 0
  Unique [] = Unit
  Unique ((key, a) ∷ rest) = (lookup key rest ≡ none) × Unique rest

  -- `HashMap::remove`
  abbrev pub erase : ℕ → Table A → Table A
  erase key [] = []
  erase key ((other, a) ∷ rest) =
      let less = erase key rest in if key == other then rest else (other, a) ∷ less

  -- `HashMap::insert`, and a write through `get_mut`.
  abbrev pub insert : ℕ → A → Table A → Table A
  insert key a table = (key, a) ∷ erase key table

  pub lookup-erase_ne :
      (asked gone : ℕ) (table : Table A)
      → asked ≢ gone
      → lookup asked (erase gone table) ≡ lookup asked table
  lookup-erase_ne asked gone [] apart = refl
  lookup-erase_ne asked gone ((other, a) ∷ rest) apart =
      ground (arith, lookup-erase_ne asked gone rest apart)

  pub lookup-erase_self :
      (gone : ℕ) (table : Table A) → Unique table → lookup gone (erase gone table) ≡ none
  lookup-erase_self gone [] unique = refl
  lookup-erase_self gone ((other, a) ∷ rest) (absent, unique) =
      ground (arith, absent, lookup-erase_self gone rest unique)

  pub erase-Unique : (gone : ℕ) (table : Table A) → Unique table → Unique (erase gone table)
  erase-Unique gone [] unique = tt
  erase-Unique gone ((other, a) ∷ rest) (absent, unique) = elim (Bool-cases (gone == other)) [
    | inl found ↦ rw found unique
    | inr apart ↦
        rw apart
          (lookup-erase_ne other gone rest (ground arith) ∙ absent, erase-Unique gone rest unique)
  ]

  pub lookup-insert_self :
      (key : ℕ) (a : A) (table : Table A) → lookup key (insert key a table) ≡ some a
  lookup-insert_self key a table = ground arith

  pub lookup-insert_ne :
      (asked key : ℕ) (a : A) (table : Table A)
      → asked ≢ key
      → lookup asked (insert key a table) ≡ lookup asked table
  lookup-insert_ne asked key a table apart = ground (arith, lookup-erase_ne asked key table apart)

  pub insert-Unique :
      (key : ℕ) (a : A) (table : Table A) → Unique table → Unique (insert key a table)
  insert-Unique key a table unique =
      (lookup-erase_self key table unique, erase-Unique key table unique)
