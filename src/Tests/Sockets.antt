-- ===== src/Tests/Sockets.antt =====
-- The network programs on the machine of Tests/Machine.
use peekbeam.Prelude.{◌≡◌, refl, false, [], ◌∷◌, ◌++◌, inr, nat_eq}
use peekbeam.Data.Int.{pos, negsuc, as_i32, as_unsigned}
use peekbeam.Data.Lists.{replicate}
use peekbeam.Data.HashMap
use peekbeam.Data.HashMap.{HashMap}
use peekbeam.Ebpf.Host.{TracePointContext}
use peekbeam.Ebpf.State.{Maps, is_some, matches_target, track_sock, untrack_sock, output_net}
use peekbeam.Ebpf.Net.{
  read_addrs, net_state_body, try_net_state, net_retransmit_body, try_net_retransmit,
}
use peekbeam.Ebpf.Programs.{inet_sock_set_state, tcp_retransmit_skb, program, fire}
use peekbeam.Ebpf.Proofs.Room.{Accepts, Inserts}
use peekbeam.Ebpf.Proofs.Sockets.{
  ReadsState, state_event, state_reported, lost_close, ReadsRetransmit, retransmit_event,
  retransmit_reported,
}
use peekbeam.Tests.Kernel.{is_target}
use peekbeam.Tests.Machine.{host, deaf, pid_7, begin, fired}

network : Unit {0}
unfolding matches_target track_sock untrack_sock output_net read_addrs net_state_body try_net_state
    net_retransmit_body try_net_retransmit program fire state_event retransmit_event as_i32
    as_unsigned HashMap.find HashMap.put HashMap.without HashMap.get HashMap.insert HashMap.remove
network = tt

-- a state change to `TCP_CLOSE` of the socket 99, in the process 7
abbrev closing : TracePointContext
closing =
    fired 7 400 ((8, pos 99) ∷ (20, pos 7) ∷ (24, pos 8080) ∷ (26, pos 443) ∷ (28, pos 2) ∷ [])

reads_state : ReadsState closing 99
unfolding network
reads_state = record {
  newstate = pos 7;
  sport = 8080;
  dport = 443;
  family = 2;
  saddr = replicate 4 32 ++ replicate 12 0;
  daddr = replicate 4 36 ++ replicate 12 0;
  sock_read = refl;
  state_read = refl;
  sport_read = refl;
  dport_read = refl;
  family_read = refl;
  saddr_read = refl;
  daddr_read = refl;
}

accepts_closing : Accepts host.net_ring [] (state_event closing 99 reads_state)
unfolding network
accepts_closing = (_, refl)

takes_socket : Inserts host.u8_map begin.tracked_socks 99 1
unfolding network
takes_socket = (_, refl)

state_reported_example :
    ((fire host inet_sock_set_state closing begin).1.net_events
      ≡ [] ++ state_event closing 99 reads_state ∷ [])
    × (is_some (HashMap.get (fire host inet_sock_set_state closing begin).1.tracked_socks 99)
        ≡ false)
unfolding as_unsigned reads_state
state_reported_example =
    state_reported host closing 99 reads_state begin accepts_closing
      (inr (is_target closing refl, takes_socket))

abbrev deaf_begin : Maps deaf
deaf_begin = record {
  pid_filter = pid_7;
  cgroup_filter = HashMap.new;
  tracked_socks = record { entries = (99, 1) ∷ [] };
  pending_open_path = HashMap.new;
  pending_fd = HashMap.new;
  events = [];
  net_events = [];
  file_events = [];
  mem_events = [];
}

-- the closed socket stays in `tracked_socks`
lost_close_example : fire deaf inet_sock_set_state closing deaf_begin ≡ (1, deaf_begin)
unfolding HashMap.get HashMap.find
lost_close_example = lost_close deaf closing 99 reads_state deaf_begin (negsuc 6) refl refl

-- a retransmit, in the context of another process
abbrev resent : TracePointContext
resent =
    fired 8 500 ((16, pos 99) ∷ (24, pos 1) ∷ (28, pos 8080) ∷ (30, pos 443) ∷ (32, pos 2) ∷ [])

reads_retransmit : ReadsRetransmit resent 99
unfolding network
reads_retransmit = record {
  state = pos 1;
  sport = 8080;
  dport = 443;
  family = 2;
  saddr = replicate 4 34 ++ replicate 12 0;
  daddr = replicate 4 38 ++ replicate 12 0;
  sock_read = refl;
  state_read = refl;
  sport_read = refl;
  dport_read = refl;
  family_read = refl;
  saddr_read = refl;
  daddr_read = refl;
}

abbrev connected : Maps host
connected = record begin { tracked_socks = record { entries = (99, 1) ∷ [] } }

accepts_resent : Accepts host.net_ring [] (retransmit_event resent 99 reads_retransmit)
unfolding network
accepts_resent = (_, refl)

retransmit_reported_example :
    ((fire host tcp_retransmit_skb resent connected).1.net_events
      ≡ [] ++ retransmit_event resent 99 reads_retransmit ∷ [])
    × ((fire host tcp_retransmit_skb resent connected).1.tracked_socks ≡ connected.tracked_socks)
unfolding HashMap.get HashMap.find
retransmit_reported_example =
    retransmit_reported host resent 99 reads_retransmit connected (accepts_resent, tt)
