-- ===== src/Control/Dispatch.antt =====
-- What a request of the control API does to the pool, and what it answers.
use warp_proxy.Base.{
  ℕ, ◌+◌, ◌^◌, ◌<◌, ◌≡◌, ◌≢◌, refl, subst, sym, ◌∙◌, true, false, List, inl, inr, ◌⊎◌, Option, none,
  some,
}
use warp_proxy.Base.{Option-cases, Bool-cases, if◌then◌else◌}
use warp_proxy.Pool.{Pool}
use warp_proxy.Pool.Controls.{Error, Result, ok, err, status, rotate, add_account, remove_account}
use warp_proxy.Pool.Controls.Calls.{
  Call, step, Inv, step-Inv, toggles, selects, reconnects, rotates, switches, paces, adds, removes,
  traces,
}
use warp_proxy.Control.{
  Answers, Response, status_body, bad_request, from_pool, missing_slot, no_such_endpoint, route,
  settle, success, remove_slot, int_param, slot, seconds, bool_param, as_usize, max_zero,
}
use warp_proxy.Base.Text.{text, same, same_iff}

-- The endpoints, and what each asks for: a look at the status, a call of the pool, or a slot that the
-- query does not name.
pub data Endpoint : Type 0 where
  look_endpoint toggle_endpoint select_endpoint reconnect_endpoint rotation_endpoint http2_endpoint
        interval_endpoint trace_endpoint add_endpoint remove_endpoint :
      Endpoint

pub path_of : Endpoint → List ℕ
path_of look_endpoint = text "/api/status"
path_of toggle_endpoint = text "/api/toggle"
path_of select_endpoint = text "/api/select"
path_of reconnect_endpoint = text "/api/reconnect"
path_of rotation_endpoint = text "/api/rotate"
path_of http2_endpoint = text "/api/http2"
path_of interval_endpoint = text "/api/interval"
path_of trace_endpoint = text "/api/trace"
path_of add_endpoint = text "/api/account/add"
path_of remove_endpoint = text "/api/account/remove"

pub data Demand : Type 0 where
  looks lacks_slot : Demand
  does : Call → Demand

-- The number of the parameter `slot`, or 0; the number of seconds, or 0.
pub slot_or_zero : List ℕ → ℕ
slot_or_zero query = elim (int_param query (text "slot")) [ none ↦ 0 | some n ↦ as_usize n ]

pub seconds_or_zero : List ℕ → ℕ
seconds_or_zero query = elim (int_param query (text "seconds")) [ none ↦ 0 | some n ↦ max_zero n ]

pub demanded : Endpoint → List ℕ → Answers → Demand
unfolding slot_or_zero seconds_or_zero
demanded look_endpoint query a = looks
demanded toggle_endpoint query a = does (toggles (bool_param query (text "on") true))
demanded select_endpoint query a = does (selects (slot_or_zero query))
demanded reconnect_endpoint query a = does (reconnects (slot_or_zero query))
demanded rotation_endpoint query a = does (rotates (slot_or_zero query) a.fresh)
demanded http2_endpoint query a = does (switches (bool_param query (text "on") false))
demanded interval_endpoint query a = does (paces (seconds_or_zero query))
demanded trace_endpoint query a = does (traces (slot_or_zero query) a.trace)
demanded add_endpoint query a = does (adds a.fresh a.dial)
demanded remove_endpoint query a = elim (int_param query (text "slot")) [
  | none ↦ lacks_slot
  | some n ↦ does (removes (as_usize n))
]

error_of : {A : Type 0} → Result A → Option Error
error_of (ok a) = none
error_of (err e) = some e

-- The error of a call of the pool, if it has one.
pub failure_of : Pool → Call → Option Error
unfolding error_of
failure_of p (rotates id fresh) = error_of (rotate p id fresh).0
failure_of p (adds fresh dial) = error_of (add_account p fresh dial).0
failure_of p (removes id) = error_of (remove_account p id).0
failure_of p _ = none

-- What a client that asks for this gets, and the pool behind it: the status of that pool, or the error.
answered_with : Option Error → Pool → Response × Pool
answered_with none q = (status_body (status q), q)
answered_with (some e) q = (bad_request (from_pool e), q)

pub served : Pool → Demand → Response × Pool
unfolding answered_with failure_of
served p looks = (status_body (status p), p)
served p lacks_slot = (bad_request missing_slot, p)
served p (does c) = answered_with (failure_of p c) (step p c)

-- Every path is that of one endpoint and is served as the endpoint asks, or is none and is refused.
pub Served : Pool → List ℕ → List ℕ → Answers → Response × Pool → Type 0
Served p path query a r =
    ((e : Endpoint) × (path ≡ path_of e) × (r ≡ served p (demanded e query a)))
    ⊎ ((e : Endpoint) → path ≢ path_of e) × (r ≡ (bad_request (no_such_endpoint path), p))

settle-answered_with :
    {A : Type 0} (r : Result A) (q : Pool) → settle (r, q) ≡ answered_with (error_of r) q
unfolding settle success answered_with error_of
settle-answered_with (ok a) q = refl
settle-answered_with (err f) q = refl

remove_slot-served :
    (p : Pool) (query : List ℕ) (a : Answers)
    → remove_slot p query ≡ served p (demanded remove_endpoint query a)
unfolding remove_slot demanded served failure_of step
remove_slot-served p query a = elim (Option-cases (int_param query (text "slot"))) [
  | inl missing ↦ rw (remove_slot, demanded, missing) refl
  | inr (n, found) ↦
      let r = remove_account p (as_usize n) in
      rw (remove_slot, demanded, found) (settle-answered_with r.0 r.1)
]

module _ (p : Pool) (path query : List ℕ) (a : Answers) where
  -- A test of the chain: the path is that of `e`, or the rest of the chain serves it.
  if-Served :
      (e : Endpoint) (x y : Response × Pool)
      → x ≡ served p (demanded e query a)
      → (path ≢ path_of e → Served p path query a y)
      → Served p path query a (if same path (path_of e) then x else y)
  unfolding Served
  if-Served e x y here there = elim (Bool-cases (same path (path_of e))) [
    | inl there_it_is ↦ rw there_it_is (inl (e, (same_iff path (path_of e)).0 there_it_is, here))
    | inr other ↦ rw other (
        there (λ at.
          let apart : true ≡ false = sym ((same_iff path (path_of e)).1 at) ∙ other in cc apart))
  ]

  -- Whatever the path and the query: the path of each endpoint makes the call that belongs to it, with the
  -- arguments that the query names or their defaults, on the pool, and is answered with the status of the
  -- pool behind the call, or with the error of the call; a path of no endpoint, and a removal without a
  -- slot, leave the pool as it is and are refused.
  pub route-Served : Served p path query a (route p path query a)
  unfolding route Served path_of demanded served answered_with failure_of success step slot seconds
      slot_or_zero seconds_or_zero
  route-Served = if-Served look_endpoint _ _ refl (λ n0. if-Served toggle_endpoint _ _ refl (λ n1.
      if-Served select_endpoint _ _ refl (λ n2. if-Served reconnect_endpoint _ _ refl (λ n3.
        if-Served rotation_endpoint _ _ (settle-answered_with _ _) (λ n4.
          if-Served http2_endpoint _ _ refl (λ n5. if-Served interval_endpoint _ _ refl (λ n6.
            if-Served trace_endpoint _ _ refl (λ n7.
              if-Served add_endpoint _ _ (settle-answered_with _ _) (λ n8.
                if-Served remove_endpoint _ _ (remove_slot-served p query a) (λ n9. inr (
                  λ e. elim e as (λ (e : Endpoint). path ≢ path_of e) [
                    | look_endpoint ↦ n0
                    | toggle_endpoint ↦ n1
                    | select_endpoint ↦ n2
                    | reconnect_endpoint ↦ n3
                    | rotation_endpoint ↦ n4
                    | http2_endpoint ↦ n5
                    | interval_endpoint ↦ n6
                    | trace_endpoint ↦ n7
                    | add_endpoint ↦ n8
                    | remove_endpoint ↦ n9
                  ],
                  refl,
                )))))))))))

answered_with-pool : (f : Option Error) (q : Pool) → (answered_with f q).1 ≡ q
unfolding answered_with
answered_with-pool none q = refl
answered_with-pool (some e) q = refl

served-Inv : (p : Pool) (w : Demand) → p.next_id + 1 < 2 ^ 64 → Inv p → Inv (served p w).1
unfolding served
served-Inv p looks room v = v
served-Inv p lacks_slot room v = v
served-Inv p (does c) room v =
    subst (λ q. Inv q) (sym (answered_with-pool (failure_of p c) (step p c))) (step-Inv p c room v)

-- Every request keeps the invariant of the pool, while the counter of the ids has room.
pub route-Inv :
    (p : Pool) (path query : List ℕ) (a : Answers)
    → p.next_id + 1 < 2 ^ 64
    → Inv p
    → Inv (route p path query a).1
unfolding Served
route-Inv p path query a room v = elim (route-Served p path query a) [
  | inl (e, at, r) ↦
      subst (λ (x : Response × Pool). Inv x.1) (sym r) (served-Inv p (demanded e query a) room v)
  | inr (other, r) ↦ subst (λ (x : Response × Pool). Inv x.1) (sym r) v
]
