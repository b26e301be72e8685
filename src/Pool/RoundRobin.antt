-- ===== src/Pool/RoundRobin.antt =====
-- The round-robin gives every worker its turn.
use warp_proxy.Base.{
  ℕ, zero, suc, ◌+◌, ◌-◌, ◌*◌, ◌%◌, ◌^◌, ◌≤◌, ◌<◌, ◌≡◌, ◌≢◌, refl, ap, sym, ◌∙◌, arith,
}
use warp_proxy.Base.{List, [], ◌∷◌, ◌++◌, Option, none, some, map, inl, inr}
use warp_proxy.Base.{
  length, get_elem?, get_elem?-lt, take, drop, length-drop, In, get_elem?-In, Option-cases,
}
use warp_proxy.Pool.{Pool, net_of, wrap, scan, round_robin, pick}
use warp_proxy.Pool.Pick.{scan_ready, pick_auto}
use native.Mathlib.Nat.{add-mul-mod_self_right, mod-eq_of_lt}
use mathlib.Core.List.{map-append}

-- The answers of `k` calls of `pick` in a row, and the pool after them.
unfoldable pub picks : ℕ → Pool → List (Option ℕ) × Pool
picks zero p = ([], p)
picks (suc k) p = let (net, p') = pick p in let (nets, p'') = picks k p' in (net ∷ nets, p'')

picks-add : (a b : ℕ) (p : Pool) → (picks (a + b) p).0 ≡ (picks a p).0 ++ (picks b (picks a p).1).0
unfolding picks
picks-add zero b p = let same : 0 + b ≡ b = omega arith in rw same
picks-add (suc a) b p =
    let more : suc a + b ≡ suc (a + b) = omega arith in
    rw more (ap (λ nets. (pick p).0 ∷ nets) (picks-add a b (pick p).1))

abbrev at_rr : Pool → ℕ → Pool
at_rr p r = record p { rr = r }

abbrev pub AllUp : Pool → Type 0
AllUp p = (id : ℕ) → In id p.workers → net_of p id ≢ none

counted : (p : Pool) → p.rr + 1 < 2 ^ 64 → wrap (p.rr + 1) ≡ p.rr + 1
counted p room = omega arith

-- The index that the counter stands at.
turn_index : (r i q n : ℕ) → i < n → r ≡ i + q * n → r + 1 < 2 ^ 64 → wrap (r + 0) % n ≡ i
turn_index r i q n lt e room =
    let fits : wrap (r + 0) ≡ i + q * n = omega arith in
    rw (fits, add-mul-mod_self_right i q n) (mod-eq_of_lt lt)

scan_turn :
    (p : Pool) (id net : ℕ)
    → 0 < length p.workers
    → get_elem? p.workers (wrap (p.rr + 0) % length p.workers) ≡ some id
    → net_of p id ≡ some net
    → scan p p.rr (length p.workers) 0 ≡ some net
scan_turn p id net pos at up =
    let rounds : length p.workers ≡ suc (length p.workers - 1) = omega arith in
    ap (λ c. scan p p.rr c 0) rounds ∙ scan_ready p p.rr (length p.workers - 1) 0 id net at up

-- One call with every worker up: the worker at the counter, which moves on by one.
pick_turn :
    (p : Pool) (i q : ℕ)
    → p.pinned ≡ 0
    → AllUp p
    → i < length p.workers
    → p.rr ≡ i + q * length p.workers
    → p.rr + 1 < 2 ^ 64
    → (id : ℕ) × (get_elem? p.workers i ≡ some id) × (pick p ≡ (net_of p id, at_rr p (p.rr + 1)))
pick_turn p i q auto up lt e room =
    let (id, at) = get_elem?-lt p.workers i lt in
    elim (Option-cases (net_of p id)) [
      | inl down ↦ absurd (up id (get_elem?-In p.workers i id at) down)
      | inr (net, is_up) ↦
          let index = turn_index p.rr i q (length p.workers) lt e room in
          let found = scan_turn p id net (omega arith) (rw index at) is_up in
          (
            id,
            at,
            pick_auto p auto (omega arith)
                ∙ unfold round_robin in λ k. ((found ∙ sym is_up) k, at_rr p (counted p room k)),
          )
    ]

drop-get_elem? :
    {A : Type 0} (xs : List A) (i : ℕ) (a : A)
    → get_elem? xs i ≡ some a
    → drop i xs ≡ a ∷ drop (suc i) xs
drop-get_elem? [] i a e = cc
drop-get_elem? (x ∷ xs) zero a e = cc
drop-get_elem? (x ∷ xs) (suc i) a e = drop-get_elem? xs i a e

picks_step :
    (k : ℕ) (p p' p'' : Pool) (net : Option ℕ) (nets : List (Option ℕ))
    → pick p ≡ (net, p')
    → picks k p' ≡ (nets, p'')
    → picks (suc k) p ≡ (net ∷ nets, p'')
unfolding picks
picks_step k p p' p'' net nets e e' = rw (e, picks, e')

take_all : {A : Type 0} (n : ℕ) (xs : List A) → length xs ≤ n → take n xs ≡ xs
take_all zero [] h = refl
take_all zero (x ∷ xs) h = absurd (omega arith)
take_all (suc n) [] h = refl
take_all (suc n) (x ∷ xs) h = ap (λ l. x ∷ l) (take_all n xs (omega arith))

-- From the counter on, `k` calls serve the next `k` workers of the list.
picks_run :
    (k : ℕ) (p : Pool) (i q : ℕ)
    → p.pinned ≡ 0
    → AllUp p
    → i + k ≤ length p.workers
    → p.rr ≡ i + q * length p.workers
    → p.rr + k < 2 ^ 64
    → picks k p ≡ (map (net_of p) (take k (drop i p.workers)), at_rr p (p.rr + k))
picks_run zero p i q auto up len e room =
    let same : p.rr ≡ p.rr + 0 = omega arith in unfold picks in λ j. ([], at_rr p (same j))
picks_run (suc k) p i q auto up len e room =
    let (id, at, now) = pick_turn p i q auto up (omega arith) e (omega arith) in
    let p' = at_rr p (p.rr + 1) in
    let rest = picks_run k p' (i + 1) q auto up (omega arith) (omega arith) (omega arith) in
    let next : i + 1 ≡ suc i = omega arith in
    let served : net_of p id ∷ map (net_of p) (take k (drop (i + 1) p.workers))
        ≡ map (net_of p) (take (suc k) (drop i p.workers)) =
      rw (next, drop-get_elem? p.workers i id at) in
    let count : p.rr + 1 + k ≡ p.rr + suc k = omega arith in
    picks_step k p p' _ _ _ now rest ∙ λ j. (served j, at_rr p (count j))

-- With no pin and every worker up, as many calls of `pick` in a row as there are workers give each
-- worker's netstack once, in the order of the list, from the one at which the counter stands, if the
-- counter stays below 2 ^ 64 meanwhile.
pub picks_fair :
    (p : Pool) (i q : ℕ)
    → p.pinned ≡ 0
    → AllUp p
    → i < length p.workers
    → p.rr ≡ i + q * length p.workers
    → p.rr + length p.workers < 2 ^ 64
    → (picks (length p.workers) p).0 ≡ map (net_of p) (drop i p.workers ++ take i p.workers)
picks_fair p i q auto up lt e room =
    let n = length p.workers in
    let split : n ≡ (n - i) + i = omega arith in
    let front = picks_run (n - i) p i q auto up (omega arith) e (omega arith) in
    let p' = at_rr p (p.rr + (n - i)) in
    let back = picks_run i p' 0 (q + 1) auto up (omega arith) (omega arith) (omega arith) in
    let all : take (n - i) (drop i p.workers) ≡ drop i p.workers =
      take_all (n - i) _ (omega (arith, length-drop i p.workers)) in
    ap (λ c. (picks c p).0) split
    ∙ picks-add (n - i) i p
    ∙ rw (front, back, all) (sym (map-append (net_of p) (drop i p.workers) (take i p.workers)))
