-- ===== src/Netstack/Conn/Tests.antt =====
-- A reader with a chunk half read and another that waits.
use warp_proxy.Base.{[], ◌∷◌, true, arith}
use warp_proxy.Netstack.Conn.{TcpConn, poll_read, Progress, poll_read-Progress}

abbrev reader : TcpConn
reader = record {
  from_net = (4 ∷ 5 ∷ []) ∷ [];
  sender_alive = true;
  read_buf = 1 ∷ 2 ∷ 3 ∷ [];
  read_pos = 1;
}

poll_read-Progress_example : Progress reader 8 (poll_read reader 8)
poll_read-Progress_example = poll_read-Progress reader 8 (omega arith) (omega arith, tt)
