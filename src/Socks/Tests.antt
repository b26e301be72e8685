-- ===== src/Socks/Tests.antt =====
-- Concrete clients, and the theorems at them. The texts of addresses are tagged octets here.
use warp_proxy.Base.{
  ℕ, zero, suc, ◌≡◌, refl, arith, true, false, List, [], ◌∷◌, ◌++◌, Option, none, some, ◌⊎◌, In,
}
use warp_proxy.Pool.{pick, net_of}
use warp_proxy.Pool.Tests.{two}
use warp_proxy.Socks.{
  IpAddr, v4, v6, Texts, Client, done, eof, read_request, reply, is_loopback_host, localhost,
}
use warp_proxy.Socks.Handler.{World, nothing, route}
use warp_proxy.Socks.Handler.Routing.{told, Via, route_tunnels}
use warp_proxy.Socks.Request.{to_name, host_of, request_bytes, read_request-request_bytes}

show_tagged : IpAddr → List ℕ
show_tagged (v4 o) = 0 ∷ o
show_tagged (v6 o) = 1 ∷ o

parse_tagged : List ℕ → Option IpAddr
parse_tagged (zero ∷ o) = some (v4 o)
parse_tagged (suc zero ∷ o) = some (v6 o)
parse_tagged _ = none

parse_tagged-show_tagged : (ip : IpAddr) → parse_tagged (show_tagged ip) ≡ some ip
unfolding parse_tagged show_tagged
parse_tagged-show_tagged (v4 o) = refl
parse_tagged-show_tagged (v6 o) = refl

abbrev tagged : Texts
tagged = record {
  show_ip = show_tagged;
  parse_ip = parse_tagged;
  from_utf8_lossy = λ d. d;
  parse_ip-show_ip = parse_tagged-show_tagged;
}

abbrev world : World
world = record {
  connect_direct = λ host port. true;
  resolve = λ net host. some (v4 (1 ∷ 1 ∷ 1 ∷ 1 ∷ []));
  connect = λ net ip port. true;
}

-- A client that has only sent a part of its greeting, and one that asks for BIND.
short_greeting :
    read_request tagged (record { input = 5 ∷ 2 ∷ 0 ∷ []; output = [] })
    ≡ eof (record { input = []; output = [] })
unfolding read_request
short_greeting = refl

bind_refused :
    read_request tagged (record { input = 5 ∷ 1 ∷ 0 ∷ 5 ∷ 2 ∷ 0 ∷ 1 ∷ []; output = [] })
    ≡ done none (record { input = []; output = 5 ∷ 0 ∷ reply 7 })
unfolding read_request reply
bind_refused = refl

read_request-request_bytes_example :
    read_request tagged
      (record { input = request_bytes (0 ∷ []) (to_name (97 ∷ [])) 443 ++ 22 ∷ []; output = [] })
    ≡ done
        (some (host_of tagged (to_name (97 ∷ [])), 443))
        (record { input = 22 ∷ []; output = 5 ∷ 0 ∷ [] })
read_request-request_bytes_example =
    read_request-request_bytes tagged (0 ∷ []) (to_name (97 ∷ [])) 443 (22 ∷ []) [] (omega arith)

abbrev client : Client
client = record { input = []; output = 5 ∷ 0 ∷ [] }

far_name : is_loopback_host tagged (97 ∷ []) ≡ false
unfolding is_loopback_host parse_tagged
far_name = refl

near_name : is_loopback_host tagged (97 ∷ 0x2e ∷ localhost) ≡ true
unfolding is_loopback_host parse_tagged
near_name = refl

route_tunnels_example :
    (((pick two).0 ≡ none)
      × (route tagged world two (97 ∷ []) 443 client ≡ done nothing (told client 1)))
    ⊎ ((id : ℕ) × (net : ℕ) × In id two.workers
        × (net_of two id ≡ some net)
        × Via world net (97 ∷ []) 443 client (route tagged world two (97 ∷ []) 443 client))
route_tunnels_example = route_tunnels tagged world two (97 ∷ []) 443 client refl far_name
