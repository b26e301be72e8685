-- ===== src/Control.antt =====
-- The control API of crates/warp-masque/src/control.rs: the query parameters and `route`.
--
-- A text is the list of its code points. The body of a success is the status that is written as JSON;
-- the bytes of a response and its headers are not modelled.
pub mod Head
pub mod Query
pub mod Dispatch
mod Tests
use warp_proxy.Base.{
  ℕ, zero, suc, ◌+◌, ◌-◌, ◌*◌, ◌^◌, ◌%◌, Bool, true, false, ◌&&◌, List, [], ◌∷◌, Option, none, some,
  ◌>>=◌,
}
use warp_proxy.Base.{◌==◌, leb, if◌then◌else◌}
use warp_proxy.Base.Text.{text, same, split, split_once}
use warp_proxy.Config.{WarpConfig}
use warp_proxy.Pool.{Pool, TraceInfo}
use warp_proxy.Pool.Controls.{
  Error, Result, ok, err, Built, PoolStatus, status, set_enabled, select, reconnect, rotate,
  set_http2, set_rotate_interval, refresh_trace, add_account, remove_account,
}

-- `find_map` over the pairs of a query.
find_pair : List ℕ → List (List ℕ) → Option (List ℕ)
find_pair key [] = none
find_pair key (pair ∷ pairs) =
    let later = find_pair key pairs in
    elim (split_once 0x3d pair) [
      | none ↦ later
      | some (k, v) ↦ if same k key then some v else later
    ]

pub param : List ℕ → List ℕ → Option (List ℕ)
unfolding find_pair
param query key = find_pair key (split 0x26 query)

-- An `i64`: its sign and its absolute value.
pub record I64 : Type 0 where
  pub negative : Bool
  pub magnitude : ℕ

-- Decimal digits, at least one, read from the left behind `acc`.
unfoldable pub digits : ℕ → List ℕ → Option ℕ
digits acc [] = some acc
digits acc (c ∷ t) =
    let rest = digits (acc * 10 + (c - 0x30)) t in if leb 0x30 c && leb c 0x39 then rest else none

bounded : Bool → List ℕ → Option I64
unfolding digits
bounded negative [] = none
bounded negative (c ∷ t) = do
  n ← digits 0 (c ∷ t)
  if leb n (if negative then 2 ^ 63 else 2 ^ 63 - 1)
      then some (record { negative = negative; magnitude = n })
      else none

-- `str::parse::<i64>`
pub parse_i64 : List ℕ → Option I64
unfolding bounded
parse_i64 [] = none
parse_i64 (c ∷ t) =
    if c == 0x2d
    then bounded true t
    else if c == 0x2b
    then bounded false t
    else bounded false (c ∷ t)

-- The casts of an `i64`: `as usize`, and `.max(0) as u64`.
pub as_usize : I64 → ℕ
as_usize n = if n.negative then (2 ^ 64 - n.magnitude) % 2 ^ 64 else n.magnitude

pub max_zero : I64 → ℕ
max_zero n = if n.negative then 0 else n.magnitude

pub int_param : List ℕ → List ℕ → Option I64
unfolding param parse_i64
int_param query key = do v ← param query key; parse_i64 v

one_of : List ℕ → List (List ℕ) → Bool
one_of v [] = false
one_of v (w ∷ ws) = let rest = one_of v ws in if same v w then true else rest

pub bool_param : List ℕ → List ℕ → Bool → Bool
unfolding param one_of
bool_param query key default = elim (param query key) [
  | none ↦ default
  | some v ↦
      if one_of v (text "1" ∷ text "true" ∷ text "on" ∷ text "yes" ∷ [])
      then true
      else if one_of v (text "0" ∷ text "false" ∷ text "off" ∷ text "no" ∷ [])
      then false
      else default
]

-- `int_param(query, "slot").unwrap_or(0) as usize`
slot : List ℕ → ℕ
unfolding int_param as_usize
slot query = elim (int_param query (text "slot")) [ none ↦ 0 | some n ↦ as_usize n ]

seconds : List ℕ → ℕ
unfolding int_param max_zero
seconds query = elim (int_param query (text "seconds")) [ none ↦ 0 | some n ↦ max_zero n ]

-- The `Err(String)` of the handler, by its cause.
pub data Failure : Type 0 where
  from_pool : Error → Failure
  missing_slot : Failure
  no_such_endpoint : List ℕ → Failure

pub data Response : Type 0 where
  status_body : PoolStatus → Response
  bad_request : Failure → Response

-- What registration, the dial and the trace answer to this call.
pub record Answers : Type 0 where
  pub fresh : Option WarpConfig
  pub dial : Option Built
  pub trace : ℕ → TraceInfo

success : Pool → Response × Pool
success p = (status_body (status p), p)

-- `.map_err(|e| e.to_string())?`
settle : {A : Type 0} → Result A × Pool → Response × Pool
unfolding success
settle (ok a, p) = success p
settle (err e, p) = (bad_request (from_pool e), p)

remove_slot : Pool → List ℕ → Response × Pool
unfolding settle int_param as_usize
remove_slot p query = elim (int_param query (text "slot")) [
  | none ↦ (bad_request missing_slot, p)
  | some n ↦ settle (remove_account p (as_usize n))
]

pub route : Pool → List ℕ → List ℕ → Answers → Response × Pool
unfolding success settle remove_slot slot seconds bool_param
route p path query a =
    if same path (text "/api/status")
    then success p
    else if same path (text "/api/toggle")
    then success (set_enabled p (bool_param query (text "on") true))
    else if same path (text "/api/select")
    then success (select p (slot query))
    else if same path (text "/api/reconnect")
    then success (reconnect p (slot query))
    else if same path (text "/api/rotate")
    then settle (rotate p (slot query) a.fresh)
    else if same path (text "/api/http2")
    then success (set_http2 p (bool_param query (text "on") false))
    else if same path (text "/api/interval")
    then success (set_rotate_interval p (seconds query))
    else if same path (text "/api/trace")
    then success (refresh_trace p (slot query) a.trace)
    else if same path (text "/api/account/add")
    then settle (add_account p a.fresh a.dial)
    else if same path (text "/api/account/remove")
    then remove_slot p query
    else (bad_request (no_such_endpoint path), p)
