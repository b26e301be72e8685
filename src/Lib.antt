-- ===== src/Lib.antt =====
-- A verification library for warp-proxy, a userspace client of Cloudflare WARP over MASQUE: the crate
-- crates/warp-masque, and its daemon crates/warp-proxy.
--
-- A device registers and gets a config. A tunnel carries IP packets, over HTTP/3 as QUIC datagrams or
-- over HTTP/2 as capsules on a CONNECT stream; a userspace network stack runs over the tunnel. The pool
-- keeps several accounts, each with a tunnel and a netstack of its own, supervises them, and picks
-- one for each connection of the SOCKS5 server; a control API drives the pool.
--
-- Files and code:
--   Base       shared names, Boolean tests, lists over the native numbers, bit operations
--   Varint     crates/warp-masque/src/tunnel.rs: encode_varint, varint_len, decode_varint
--   Tunnel     crates/warp-masque/src/tunnel.rs: H3Io, as functions on bytes and on the events of the
--              QUIC connection
--   H2Tunnel   crates/warp-masque/src/h2tunnel.rs: capsules, reader_loop, writer_loop. The record
--              SendStream is what the writer uses of the h2 crate
--   Config     crates/warp-masque/src/config.rs: WarpConfig, strip_v4_port, strip_v6_brackets
--   Pool       crates/warp-masque/src/pool.rs: Pool, Worker and pick. Pool/Controls has the control
--              calls, Pool/Supervisor the tasks (spawn_supervisor, spawn_rotator)
--   Socks      crates/warp-masque/src/socks.rs: read_request; Socks/Handler has handle_single, handle_pool
--              and via_netstack. The records Texts and World are the standard library's texts of
--              addresses and what connects answer
--   Control    crates/warp-masque/src/control.rs: param, int_param, bool_param and route;
--              Control/Head has handle
--   Netstack   crates/warp-masque/src/netstack.rs: TcpConn, and the Actor with its loop. The record
--              Smoltcp is what the actor uses of smoltcp, Buffered and Handles what it relies on there,
--              and Apart what one connection relies on of the calls for others. Netstack/Client is the
--              client's end: NetHandle, TcpConn, TcpWriter; Netstack/Device the TunDevice and the packets
--              that leave by it
--   Registration  crates/warp-masque/src/register.rs, doh.rs and error.rs. The record Api is what they
--              use of reqwest, serde_json, chrono and the keys
--   Daemon     crates/warp-proxy/src/main.rs: parse_args, load_or_register, gen_token; and load and save
--              of crates/warp-masque/src/config.rs
--   Identity   crates/warp-masque/src/keys.rs and tls.rs: the device's key, its certificate and the pin.
--              The record Crypto is what they use of base64, p256, rcgen, x509_cert and rustls
--   Dial       crates/warp-masque/src/tunnel.rs: quic_endpoint, dial_quic, connect_with, connect_h3, and
--              connect_h2 of crates/warp-masque/src/h2tunnel.rs. The record Net is what they use of
--              quinn, h3, h2, tokio and the parsing of addresses
--   Trace      crates/warp-masque/src/trace.rs: do_fetch and fetch_trace. The record Site is what they use
--              of the netstack and of TLS
--   Probe      crates/warp-masque/examples/egress_probe.rs: the packet that it builds, with its
--              checksums, the readers of packets and DNS replies, and the attempts of main
--
-- Numbers are natural numbers; u64 and usize are those below 2 ^ 64, with the wrap-around of a release
-- build where the code adds to a counter. A byte string and a text are lists of numbers.
--
-- A call of a library gives an option, which is none where it fails, and changes what it changes by
-- explicit state; an order that a library leaves open, as of the keys of a map, is an argument.
--
-- The loops over a socket's buffers run on fuel: one more than the bytes to send, of which a turn that
-- goes on sends one at least, and one more than the channel has places, of which it fills one.
-- The loop over the pending DNS queries runs on as many turns as there are queries. The loop over the
-- reader's buffer runs on fuel, one more than the bytes of the buffer: a capsule takes
-- at least a byte, so that many rounds are enough. The other loops are recursion on
-- the list of what they meet: the frames of a stream, the packets of a queue, the events of a
-- connection, the workers of a snapshot. The probe's loop over a name runs on the length of the
-- message, since a round moves on, and its loop over the carries of a sum on three rounds, of which two
-- are enough.
--
-- Tasks interleave by whole steps: a control call is one step, also where the code waits inside it for
-- registration, for a dial or for a trace, whose answers are arguments. Not modelled are the libraries
-- (tokio, quinn, h2, h3, smoltcp, reqwest, the TLS stack), of which each model takes what the code uses
-- as arguments or named laws, what only connects them (the spawning of tasks, the accept loops, the
-- printing of responses, permissions, logs), and vendor/h3, a copy of another project.
pub mod Base
pub mod Varint
pub mod Tunnel
pub mod H2Tunnel
pub mod Config
pub mod Pool
pub mod Socks
pub mod Control
pub mod Netstack
pub mod Registration
pub mod Daemon
pub mod Identity
pub mod Dial
pub mod Probe
pub mod Trace
