-- ===== src/Netstack.antt =====
-- The userspace network stack of crates/warp-masque/src/netstack.rs: what a client's `TcpConn` reads,
-- and the actor that owns the sockets.
--
-- Of smoltcp the model has `Smoltcp`: a state of the interface with its sockets, and the calls that the
-- actor makes. A socket's handle, the oneshot sender of a reply and a DNS query are numbers that name
-- them. A text is the list of its code points, and a byte string the list of its bytes.
pub mod Conn
pub mod Actor
pub mod Client
pub mod Device
use warp_proxy.Base.{ℕ, Bool, true, false, List, Option}
use warp_proxy.Socks.{IpAddr}

-- `smoltcp::socket::tcp::State`
pub data TcpState : Type 0 where
  closed listen syn_sent syn_received established fin_wait1 fin_wait2 close_wait closing last_ack
        time_wait :
      TcpState

pub is_established : TcpState → Bool
is_established established = true
is_established _ = false

unfoldable pub is_closed : TcpState → Bool
is_closed closed = true
is_closed _ = false

-- `get_query_result`
pub data QueryResult : Type 0 where
  addresses : List IpAddr → QueryResult
  pending failed : QueryResult

-- What the actor uses of smoltcp and of `VecDeque::as_slices`. The clock is part of `Net`. `none` is an
-- error, and `first_slice net h n` is the length of the first of the two slices of `h`'s buffer when it
-- has `n` bytes, which hangs on where the buffer starts, and so may differ from state to state.
pub record Smoltcp : Type 1 where
  pub Net : Type 0
  pub poll : Net → List (List ℕ) → Net × List (List ℕ) × List (List ℕ)
  pub add : Net → ℕ × Net
  pub remove : Net → ℕ → Net
  pub connect : Net → ℕ → IpAddr → ℕ → ℕ → Option Net
  pub state : Net → ℕ → TcpState
  pub is_active : Net → ℕ → Bool
  pub can_send : Net → ℕ → Bool
  pub can_recv : Net → ℕ → Bool
  pub send_slice : Net → ℕ → List ℕ → Option (ℕ × Net)
  pub recv_slice : Net → ℕ → ℕ → Option (List ℕ × Net)
  pub close : Net → ℕ → Net
  pub start_query : Net → List ℕ → Option (ℕ × Net)
  pub get_query_result : Net → ℕ → QueryResult × Net
  pub first_slice : Net → ℕ → ℕ → ℕ
