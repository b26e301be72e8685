-- ===== src/Netstack/Conn.antt =====
-- `AsyncRead` and `AsyncWrite` of `TcpConn` in crates/warp-masque/src/netstack.rs.
mod Tests
use warp_proxy.Base.{
  ℕ, zero, suc, ◌+◌, ◌-◌, ◌≤◌, ◌<◌, ◌≡◌, refl, subst, ap, sym, ◌∙◌, arith, min, Bool, true, false,
  List, [], ◌∷◌, ◌++◌, inl, inr, ◌⊎◌,
}
use warp_proxy.Base.{
  leb, if◌then◌else◌, length, take, drop, All, append_assoc, take-append-drop, Bool-cases,
  length-drop, length-take,
}
use mathlib.Core.List.{flatten}

-- The reading half: the chunks that wait in the channel, whether the actor still holds its sender,
-- and the chunk that is being read.
pub record TcpConn : Type 0 where
  pub from_net : List (List ℕ)
  pub sender_alive : Bool
  pub read_buf : List ℕ
  pub read_pos : ℕ

-- `Poll<io::Result<()>>` with what was put into the reader's buffer; a ready poll that puts nothing into
-- a buffer with room is the end of the stream.
pub data ReadPoll : Type 0 where
  ready : List ℕ → TcpConn → ReadPoll
  waits : TcpConn → ReadPoll

-- The part behind the `if`.
copy : TcpConn → ℕ → ReadPoll
copy me remaining =
    let n = min remaining (length me.read_buf - me.read_pos) in
    ready (take n (drop me.read_pos me.read_buf)) (record me { read_pos = me.read_pos + n })

refill : TcpConn → ℕ → List (List ℕ) → ReadPoll
unfolding copy
refill me remaining (v ∷ later) =
    copy (record me { from_net = later; read_buf = v; read_pos = 0 }) remaining
refill me remaining [] = if me.sender_alive then waits me else ready [] me

pub poll_read : TcpConn → ℕ → ReadPoll
unfolding copy refill
poll_read me remaining =
    if leb (length me.read_buf) me.read_pos
    then refill me remaining me.from_net
    else copy me remaining

-- What a connection has still to give.
pub unread : TcpConn → List ℕ
unread me = drop me.read_pos me.read_buf ++ flatten me.from_net

-- A poll gives the next bytes of the stream and leaves the others.
pub Progress : TcpConn → ℕ → ReadPoll → Type 0
Progress me remaining (ready bytes me') =
    (unread me ≡ bytes ++ unread me')
    × (length bytes ≤ remaining)
    × (All (λ v. 1 ≤ length v) me'.from_net)
    × ((1 ≤ length bytes) ⊎ ((unread me ≡ []) × (me.sender_alive ≡ false)))
Progress me remaining (waits me') = (unread me ≡ []) × (me.sender_alive ≡ true) × (me' ≡ me)

drop-drop : (i n k : ℕ) (xs : List ℕ) → k ≡ i + n → drop n (drop i xs) ≡ drop k xs
drop-drop zero n k xs e = ap (λ j. drop j xs) (let same : n ≡ k = omega arith in same)
drop-drop (suc i) n zero xs e = absurd (omega arith)
drop-drop (suc i) zero (suc k) [] e = refl
drop-drop (suc i) (suc n) (suc k) [] e = refl
drop-drop (suc i) n (suc k) (x ∷ xs) e = drop-drop i n k xs (omega arith)

copy-Progress :
    (me : TcpConn) (remaining : ℕ)
    → 1 ≤ remaining
    → me.read_pos < length me.read_buf
    → All (λ v. 1 ≤ length v) me.from_net
    → Progress me remaining (copy me remaining)
unfolding copy Progress unread
copy-Progress me remaining room some_left chunks =
    let n = min remaining (length me.read_buf - me.read_pos) in
    let left : List ℕ = drop me.read_pos me.read_buf in
    let size : length (take n left) ≡ n =
      omega (arith, length-take n left, length-drop me.read_pos me.read_buf) in
    let whole : left ≡ take n left ++ drop (me.read_pos + n) me.read_buf =
      sym (take-append-drop n left)
      ∙ ap (λ l. take n left ++ l) (drop-drop me.read_pos n (me.read_pos + n) me.read_buf refl) in
    (
      ap (λ l. l ++ flatten me.from_net) whole ∙ append_assoc (take n left) _ _,
      omega arith,
      chunks,
      inl (omega arith),
    )

drop_past : (n : ℕ) (xs : List ℕ) → length xs ≤ n → drop n xs ≡ []
drop_past zero [] h = refl
drop_past zero (x ∷ xs) h = absurd (omega arith)
drop_past (suc n) [] h = refl
drop_past (suc n) (x ∷ xs) h = drop_past n xs (omega arith)

ended-Progress :
    (me : TcpConn) (remaining : ℕ) (alive : Bool)
    → me.sender_alive ≡ alive
    → unread me ≡ []
    → me.from_net ≡ []
    → Progress me remaining (if alive then waits me else ready [] me)
unfolding Progress
ended-Progress me remaining true e nothing none_left = (nothing, e, refl)
ended-Progress me remaining false e nothing none_left =
    (refl, omega arith, subst (λ l. All (λ v. 1 ≤ length v) l) (sym none_left) tt, inr (nothing, e))

refill-Progress :
    (me : TcpConn) (remaining : ℕ)
    → 1 ≤ remaining
    → length me.read_buf ≤ me.read_pos
    → (chunks : List (List ℕ)) → me.from_net ≡ chunks
    → All (λ v. 1 ≤ length v) chunks
    → Progress me remaining (refill me remaining chunks)
unfolding refill Progress unread flatten copy
refill-Progress me remaining room used [] e full =
    ended-Progress me remaining me.sender_alive refl
      (rw (unread, drop_past me.read_pos me.read_buf used, e) refl) e
refill-Progress me remaining room used (v ∷ later) e full =
    let next : TcpConn = record me { from_net = later; read_buf = v; read_pos = 0 } in
    let same : unread me ≡ unread next =
      rw (unread, drop_past me.read_pos me.read_buf used, e) refl in
    let (bytes, small, chunks, given) = copy-Progress next remaining room (omega arith) full.1 in
    (
      same ∙ bytes,
      small,
      chunks,
      elim given [ inl some_bytes ↦ inl some_bytes | inr (empty, dead) ↦ inr (same ∙ empty, dead) ],
    )

-- A poll of a reader with room gives the next bytes of the stream, no more than there is room for, and
-- leaves the rest; it gives none only if nothing is left and the actor has dropped its sender, and it
-- waits only if nothing is left and the sender is alive.
pub poll_read-Progress :
    (me : TcpConn) (remaining : ℕ)
    → 1 ≤ remaining
    → All (λ v. 1 ≤ length v) me.from_net
    → Progress me remaining (poll_read me remaining)
unfolding poll_read
poll_read-Progress me remaining room chunks =
    elim (Bool-cases (leb (length me.read_buf) me.read_pos)) [
      | inr more ↦ rw more (copy-Progress me remaining room (ground arith) chunks)
      | inl used ↦
          rw used (refill-Progress me remaining room (ground arith) me.from_net refl chunks)
    ]
