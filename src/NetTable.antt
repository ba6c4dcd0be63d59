-- ===== src/NetTable.antt =====
-- peekbeam/src/net_table.rs: names of TCP states, and addresses.
use peekbeam.Prelude.{ℕ, List, nat_beq, if◌then◌else◌}
use peekbeam.Data.Lists.{take}
use peekbeam.Data.Text.{Text, text}
use peekbeam.Common.{af_inet6}

unfoldable pub state_name : ℕ → Text
state_name state =
    if nat_beq state 1
    then text "ESTABLISHED"
    else if nat_beq state 2
    then text "SYN_SENT"
    else if nat_beq state 3
    then text "SYN_RECV"
    else if nat_beq state 4
    then text "FIN_WAIT1"
    else if nat_beq state 5
    then text "FIN_WAIT2"
    else if nat_beq state 6
    then text "TIME_WAIT"
    else if nat_beq state 7
    then text "CLOSE"
    else if nat_beq state 8
    then text "CLOSE_WAIT"
    else if nat_beq state 9
    then text "LAST_ACK"
    else if nat_beq state 10
    then text "LISTEN"
    else if nat_beq state 11
    then text "CLOSING"
    else if nat_beq state 12
    then text "NEW_SYN_RECV"
    else text "UNKNOWN"

unfoldable pub state_annotation : ℕ → Text
state_annotation state =
    if nat_beq state 1
    then text "connection open, actively usable"
    else if nat_beq state 2
    then text "we sent SYN, waiting for the peer's reply"
    else if nat_beq state 3
    then text "inbound SYN received, handshake in progress"
    else if nat_beq state 4
    then text "we closed our side, waiting on the peer to close theirs"
    else if nat_beq state 5
    then text "we closed our side, waiting on the peer to close theirs"
    else if nat_beq state 6
    then text "closed, waiting to make sure the peer saw it"
    else if nat_beq state 7
    then text "connection fully closed"
    else if nat_beq state 8
    then text "peer closed, waiting for us to close our side"
    else if nat_beq state 9
    then text "we sent our final ack, waiting for it to land"
    else if nat_beq state 10
    then text "listening for incoming connections"
    else if nat_beq state 11
    then text "both sides closing simultaneously"
    else if nat_beq state 12
    then text "inbound SYN queued, not yet accepted"
    else text "unrecognized TCP state"

-- `Ipv4Addr` and `Ipv6Addr` of `std`, printed: the text of 4 and of 16 bytes.
pub record AddrPrinter : Type 0 where
  pub ipv4 : List ℕ → Text
  pub ipv6 : List ℕ → Text

unfoldable pub format_addr : AddrPrinter → ℕ → List ℕ → Text
format_addr p family addr = if nat_beq family af_inet6 then p.ipv6 addr else p.ipv4 (take 4 addr)
