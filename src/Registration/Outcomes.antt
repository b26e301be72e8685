-- ===== src/Registration/Outcomes.antt =====
-- What it takes for a chain of fallible calls, each behind a `?`, to succeed.
use warp_proxy.Base.{ℕ, ◌≡◌, refl, ap, arith, Option, none, some}
use warp_proxy.Registration.{Outcome, ok, err, or_err, then_try, and_then, Error}

ok_of : {A : Type 0} → A → Outcome A → A
ok_of other (ok a) = a
ok_of other (err e) = other

pub ok-injective : {A : Type 0} (a b : A) → ok a ≡ ok b → a ≡ b
unfolding ok_of
ok-injective a b e = ap (ok_of a) e

is_ok : {A : Type 0} → Outcome A → ℕ
is_ok (ok a) = 1
is_ok (err e) = 0

pub err_ok : {A : Type 0} (e : Error) (a : A) → err e ≡ ok a → ⊥
unfolding is_ok
err_ok e a h = let apart : 0 ≡ 1 = ap is_ok h in omega (arith, apart)

pub then_try-ok :
    {A B : Type 0} (r : Outcome A) (f : A → Outcome B) (b : B)
    → then_try r f ≡ ok b
    → (a : A) × (r ≡ ok a) × (f a ≡ ok b)
unfolding then_try
then_try-ok (ok a) f b e = (a, refl, e)
then_try-ok (err x) f b e = absurd (err_ok x b e)

pub or_err-ok : {A : Type 0} (x : Error) (o : Option A) (a : A) → or_err x o ≡ ok a → o ≡ some a
unfolding or_err
or_err-ok x none a e = absurd (err_ok x a e)
or_err-ok x (some b) a e = ap some (ok-injective b a e)

pub and_then-ok :
    {A B S : Type 0} (r : Outcome A × S) (f : A → S → Outcome B × S) (b : B)
    → (and_then r f).0 ≡ ok b
    → (a : A) × (r.0 ≡ ok a) × (and_then r f ≡ f a r.1)
unfolding and_then
and_then-ok (ok a, s) f b e = (a, refl, refl)
and_then-ok (err x, s) f b e = absurd (err_ok x b e)
