-- ===== src/Common/Layout.antt =====
-- The bytes of the records of peekbeam-common/src/lib.rs: `repr(C)` on a little-endian machine, each
-- field at a multiple of its alignment. The kernel side writes a record's bytes, the userspace reads
-- them back (`read_unaligned`). `fill` stands for the padding bytes, whose value nothing defines.
use peekbeam.Prelude.{ℕ, zero, suc, ◌+◌, ◌*◌, ◌/◌, ◌%◌, Option, none, some, List, [], ◌∷◌, ◌++◌}
use mathlib.Core.Option
use peekbeam.Data.Int.{as_unsigned, signed32, signed64}
use peekbeam.Data.Lists.{take, drop, replicate}
use peekbeam.Common.{
  EventKind, enter, exit, SyscallEvent, NetEventKind, state_change, retransmit, NetEvent,
  FileEventKind, opened, close, read, write, FileEvent, file_path_max, MemEventKind, alloc, free,
  MemEvent,
}

-- `k` bytes of a number, the lowest first.
unfoldable pub le_bytes : ℕ → ℕ → List ℕ
le_bytes zero x = []
le_bytes (suc k) x = (x % 256) ∷ le_bytes k (x / 256)

unfoldable pub le_num : List ℕ → ℕ
le_num [] = 0
le_num (b ∷ bs) = b + 256 * le_num bs

-- The number in the `k` bytes at `off`, and the bytes themselves.
unfoldable pub at : ℕ → ℕ → List ℕ → List ℕ
at off k bs = take k (drop off bs)

unfoldable pub num_at : ℕ → ℕ → List ℕ → ℕ
unfolding le_num at
num_at off k bs = le_num (at off k bs)

-- The discriminants (`repr(u8)`). Another byte is no value of the type.
unfoldable pub event_kind : ℕ → Option EventKind
event_kind zero = some enter
event_kind (suc zero) = some exit
event_kind _ = none

unfoldable pub event_kind_byte : EventKind → ℕ
event_kind_byte enter = 0
event_kind_byte exit = 1

unfoldable pub net_event_kind : ℕ → Option NetEventKind
net_event_kind zero = some state_change
net_event_kind (suc zero) = some retransmit
net_event_kind _ = none

unfoldable pub net_event_kind_byte : NetEventKind → ℕ
net_event_kind_byte state_change = 0
net_event_kind_byte retransmit = 1

unfoldable pub file_event_kind : ℕ → Option FileEventKind
file_event_kind zero = some opened
file_event_kind (suc zero) = some close
file_event_kind (suc (suc zero)) = some read
file_event_kind (suc (suc (suc zero))) = some write
file_event_kind _ = none

unfoldable pub file_event_kind_byte : FileEventKind → ℕ
file_event_kind_byte opened = 0
file_event_kind_byte close = 1
file_event_kind_byte read = 2
file_event_kind_byte write = 3

unfoldable pub mem_event_kind : ℕ → Option MemEventKind
mem_event_kind zero = some alloc
mem_event_kind (suc zero) = some free
mem_event_kind _ = none

unfoldable pub mem_event_kind_byte : MemEventKind → ℕ
mem_event_kind_byte alloc = 0
mem_event_kind_byte free = 1

-- `size_of` of the four records
abbrev pub syscall_event_size : ℕ
syscall_event_size = 24

abbrev pub net_event_size : ℕ
net_event_size = 56

abbrev pub file_event_size : ℕ
file_event_size = 104

abbrev pub mem_event_size : ℕ
mem_event_size = 24

unfoldable pub encode_syscall : SyscallEvent → List ℕ
unfolding le_bytes event_kind_byte
encode_syscall e =
    le_bytes 4 e.pid
    ++ (event_kind_byte e.kind ∷ (e.pad ++ (le_bytes 8 e.syscall_nr ++ le_bytes 8 e.timestamp_ns)))

unfoldable pub decode_syscall : List ℕ → Option SyscallEvent
unfolding num_at event_kind
decode_syscall bs =
    Option.map
      (λ k. record {
        pid = num_at 0 4 bs;
        kind = k;
        pad = at 5 3 bs;
        syscall_nr = num_at 8 8 bs;
        timestamp_ns = num_at 16 8 bs;
      })
      (event_kind (num_at 4 1 bs))

unfoldable pub encode_net : ℕ → NetEvent → List ℕ
unfolding le_bytes net_event_kind_byte
encode_net fill e =
    net_event_kind_byte e.kind
    ∷ (fill
        ∷ (le_bytes 2 e.family
            ++ (le_bytes 2 e.state
                ++ (le_bytes 2 e.sport
                    ++ (le_bytes 2 e.dport
                        ++ (e.saddr
                            ++ (e.daddr ++ (replicate 6 fill ++ le_bytes 8 e.timestamp_ns))))))))

unfoldable pub decode_net : List ℕ → Option NetEvent
unfolding num_at net_event_kind
decode_net bs =
    Option.map
      (λ k. record {
        kind = k;
        family = num_at 2 2 bs;
        state = num_at 4 2 bs;
        sport = num_at 6 2 bs;
        dport = num_at 8 2 bs;
        saddr = at 10 16 bs;
        daddr = at 26 16 bs;
        timestamp_ns = num_at 48 8 bs;
      })
      (net_event_kind (num_at 0 1 bs))

unfoldable pub encode_file : ℕ → FileEvent → List ℕ
unfolding le_bytes file_event_kind_byte
encode_file fill e =
    le_bytes 4 e.pid
    ++ (file_event_kind_byte e.kind
        ∷ (replicate 3 fill
            ++ (le_bytes 4 (as_unsigned 32 e.fd)
                ++ (replicate 4 fill
                    ++ (le_bytes 8 (as_unsigned 64 e.bytes)
                        ++ (le_bytes 2 e.path_len
                            ++ (e.path ++ (replicate 6 fill ++ le_bytes 8 e.timestamp_ns))))))))

unfoldable pub decode_file : List ℕ → Option FileEvent
unfolding num_at file_event_kind
decode_file bs =
    Option.map
      (λ k. record {
        pid = num_at 0 4 bs;
        kind = k;
        fd = signed32 (num_at 8 4 bs);
        bytes = signed64 (num_at 16 8 bs);
        path_len = num_at 24 2 bs;
        path = at 26 file_path_max bs;
        timestamp_ns = num_at 96 8 bs;
      })
      (file_event_kind (num_at 4 1 bs))

unfoldable pub encode_mem : ℕ → MemEvent → List ℕ
unfolding le_bytes mem_event_kind_byte
encode_mem fill e =
    le_bytes 4 e.pid
    ++ (mem_event_kind_byte e.kind
        ∷ (replicate 3 fill ++ (le_bytes 8 e.bytes ++ le_bytes 8 e.timestamp_ns)))

unfoldable pub decode_mem : List ℕ → Option MemEvent
unfolding num_at mem_event_kind
decode_mem bs =
    Option.map
      (λ k. record {
        pid = num_at 0 4 bs;
        kind = k;
        bytes = num_at 8 8 bs;
        timestamp_ns = num_at 16 8 bs;
      })
      (mem_event_kind (num_at 4 1 bs))
