-- ===== src/Parsing/Bounds.antt =====
-- The parsers read inside the packet only.
use katran.Base.{arith, Bool}
use katran.Run.{State, load8, load16, load32}
use katran.Run.Bounds.{KeepsLen}
use katran.Parsing.{parse_udp, parse_tcp, parse_quic}

pub parse_udp-KeepsLen : (v6 : Bool) (s : State) → KeepsLen s.xdp.len (parse_udp v6 s)
unfolding parse_udp load16
parse_udp-KeepsLen v6 s = ground arith

pub parse_tcp-KeepsLen : (v6 : Bool) (s : State) → KeepsLen s.xdp.len (parse_tcp v6 s)
unfolding parse_tcp load16 load8
parse_tcp-KeepsLen v6 s = ground arith

pub parse_quic-KeepsLen : (v6 : Bool) (s : State) → KeepsLen s.xdp.len (parse_quic v6 s)
unfolding parse_quic load8 load32
parse_quic-KeepsLen v6 s = ground arith
