-- ===== src/Common/RoundTrip.antt =====
-- The bytes of the records of peekbeam-common/src/lib.rs, written and read back.
use peekbeam.Prelude.{
  ℕ, zero, suc, ◌+◌, ◌^◌, ◌<◌, ◌≡◌, refl, ap, ◌∙◌, some, List, [], ◌∷◌, ◌++◌, arith,
}
use Prim.Native.Nat.add
use peekbeam.Data.Int.{
  ℤ, IsI32, IsI64, as_unsigned, signed32, signed64, signed32-as_unsigned, signed64-as_unsigned,
  as_unsigned32-lt, as_unsigned64-lt,
}
use peekbeam.Data.Lists.{length, take, drop, replicate, take-append, length-append}
use peekbeam.Common.{
  EventKind, NetEventKind, FileEventKind, MemEventKind, SyscallEvent, NetEvent, FileEvent, MemEvent,
  file_path_max, enter, exit, state_change, retransmit, opened, close, read, write, alloc, free,
}
use peekbeam.Common.Layout.{
  le_bytes, le_num, at, num_at, encode_syscall, decode_syscall, encode_net, decode_net, encode_file,
  decode_file, encode_mem, decode_mem, syscall_event_size, net_event_size, file_event_size,
  mem_event_size, event_kind, event_kind_byte, net_event_kind, net_event_kind_byte, file_event_kind,
  file_event_kind_byte, mem_event_kind, mem_event_kind_byte,
}

le_num1 : (x : ℕ) → x < 2 ^ 8 → le_num (le_bytes 1 x) ≡ x
unfolding le_num le_bytes
le_num1 x h = omega arith

le_num2 : (x : ℕ) → x < 2 ^ 16 → le_num (le_bytes 2 x) ≡ x
unfolding le_num le_bytes
le_num2 x h = omega arith

le_num4 : (x : ℕ) → x < 2 ^ 32 → le_num (le_bytes 4 x) ≡ x
unfolding le_num le_bytes
le_num4 x h = omega arith

le_num8 : (x : ℕ) → x < 2 ^ 64 → le_num (le_bytes 8 x) ≡ x
unfolding le_num le_bytes
le_num8 x h = omega arith

drop_past {ℓ} :
    {A : Type ℓ} (n m : ℕ) (xs ys : List A) → length xs ≡ n → drop (n + m) (xs ++ ys) ≡ drop m ys
drop_past n m [] ys h = let e : n ≡ 0 = omega arith in rw e (ap (λ k. drop k ys) (omega arith))
drop_past zero m (x ∷ xs) ys h = absurd (omega arith)
drop_past (suc n) m (x ∷ xs) ys h = rw add.suc (drop_past n m xs ys (omega arith))

take_first {ℓ} : {A : Type ℓ} (n : ℕ) (xs ys : List A) → length xs ≡ n → take n (xs ++ ys) ≡ xs
take_first n xs ys h = rw (← h) (take-append xs ys)

three : (l : List ℕ) → length l ≡ 3 → (a : ℕ) × (b : ℕ) × (c : ℕ) × (l ≡ a ∷ b ∷ c ∷ [])
three (a ∷ b ∷ c ∷ []) h = (a, b, c, refl)
three (a ∷ b ∷ c ∷ d ∷ l) h = absurd (omega arith)
three (a ∷ b ∷ []) h = absurd (omega arith)
three (a ∷ []) h = absurd (omega arith)
three [] h = absurd (omega arith)

-- The ranges of the fields.
pub record SyscallInRange (e : SyscallEvent) : Type 0 where
  pub pid : e.pid < 2 ^ 32
  pub pad : length e.pad ≡ 3
  pub syscall_nr : e.syscall_nr < 2 ^ 64
  pub timestamp_ns : e.timestamp_ns < 2 ^ 64

kind_back : (k : EventKind) → event_kind (le_num (event_kind_byte k ∷ [])) ≡ some k
unfolding event_kind event_kind_byte le_num
kind_back enter = refl
kind_back exit = refl

syscall_of :
    (e : SyscallEvent)
    → e.pid < 2 ^ 32
    → e.syscall_nr < 2 ^ 64
    → e.timestamp_ns < 2 ^ 64
    → (a b c : ℕ) → e.pad ≡ a ∷ b ∷ c ∷ []
    → (length (encode_syscall e) ≡ syscall_event_size)
      × (decode_syscall (encode_syscall e) ≡ some e)
unfolding encode_syscall decode_syscall le_bytes num_at at
syscall_of e p n t a b c h = (
  rw h,
  rw (h, kind_back e.kind)
      (λ i. some (record {
        pid = le_num4 e.pid p i;
        kind = e.kind;
        pad = a ∷ b ∷ c ∷ [];
        syscall_nr = le_num8 e.syscall_nr n i;
        timestamp_ns = le_num8 e.timestamp_ns t i;
      })),
)

-- A record of a syscall takes 24 bytes and is read back from them.
pub syscall_round_trip :
    (e : SyscallEvent)
    → SyscallInRange e
    → (length (encode_syscall e) ≡ syscall_event_size)
      × (decode_syscall (encode_syscall e) ≡ some e)
syscall_round_trip e r =
    let (a, b, c, h) = three e.pad r.pad in syscall_of e r.pid r.syscall_nr r.timestamp_ns a b c h

pub record MemInRange (e : MemEvent) : Type 0 where
  pub pid : e.pid < 2 ^ 32
  pub bytes : e.bytes < 2 ^ 64
  pub timestamp_ns : e.timestamp_ns < 2 ^ 64

mem_kind_back : (k : MemEventKind) → mem_event_kind (le_num (mem_event_kind_byte k ∷ [])) ≡ some k
unfolding mem_event_kind mem_event_kind_byte le_num
mem_kind_back alloc = refl
mem_kind_back free = refl

-- A record of an allocation takes 24 bytes and is read back from them, whatever the padding holds.
pub mem_round_trip :
    (fill : ℕ) (e : MemEvent)
    → MemInRange e
    → (length (encode_mem fill e) ≡ mem_event_size) × (decode_mem (encode_mem fill e) ≡ some e)
unfolding encode_mem decode_mem le_bytes num_at at
mem_round_trip fill e r = (
  refl,
  rw (mem_kind_back e.kind) (λ i. some (record {
    pid = le_num4 e.pid r.pid i;
    kind = e.kind;
    bytes = le_num8 e.bytes r.bytes i;
    timestamp_ns = le_num8 e.timestamp_ns r.timestamp_ns i;
  })),
)

pub record FileInRange (e : FileEvent) : Type 0 where
  pub pid : e.pid < 2 ^ 32
  pub fd : IsI32 e.fd
  pub bytes : IsI64 e.bytes
  pub path_len : e.path_len < 2 ^ 16
  pub path : length e.path ≡ file_path_max
  pub timestamp_ns : e.timestamp_ns < 2 ^ 64

file_kind_back :
    (k : FileEventKind) → file_event_kind (le_num (file_event_kind_byte k ∷ [])) ≡ some k
unfolding file_event_kind file_event_kind_byte le_num
file_kind_back opened = refl
file_kind_back close = refl
file_kind_back read = refl
file_kind_back write = refl

fd_back : (x : ℤ) → IsI32 x → signed32 (le_num (le_bytes 4 (as_unsigned 32 x))) ≡ x
fd_back x h = rw (le_num4 (as_unsigned 32 x) (as_unsigned32-lt x)) (signed32-as_unsigned x h)

bytes_back : (x : ℤ) → IsI64 x → signed64 (le_num (le_bytes 8 (as_unsigned 64 x))) ≡ x
bytes_back x h = rw (le_num8 (as_unsigned 64 x) (as_unsigned64-lt x)) (signed64-as_unsigned x h)

-- A record of a file access takes 104 bytes and is read back from them, whatever the padding holds.
pub file_round_trip :
    (fill : ℕ) (e : FileEvent)
    → FileInRange e
    → (length (encode_file fill e) ≡ file_event_size) × (decode_file (encode_file fill e) ≡ some e)
unfolding encode_file decode_file le_bytes num_at at
file_round_trip fill e r = (
  omega (arith, length-append e.path (replicate 6 fill ++ le_bytes 8 e.timestamp_ns), r.path),
  rw (file_kind_back e.kind) (λ i. some (record {
    pid = le_num4 e.pid r.pid i;
    kind = e.kind;
    fd = fd_back e.fd r.fd i;
    bytes = bytes_back e.bytes r.bytes i;
    path_len = le_num2 e.path_len r.path_len i;
    path = take_first 64 e.path (replicate 6 fill ++ le_bytes 8 e.timestamp_ns) r.path i;
    timestamp_ns =
        (ap (λ l. le_num (take 8 l))
              (drop_past 64 6 e.path (replicate 6 fill ++ le_bytes 8 e.timestamp_ns) r.path)
            ∙ le_num8 e.timestamp_ns r.timestamp_ns)
          i;
  })),
)

pub record NetInRange (e : NetEvent) : Type 0 where
  pub family : e.family < 2 ^ 16
  pub state : e.state < 2 ^ 16
  pub sport : e.sport < 2 ^ 16
  pub dport : e.dport < 2 ^ 16
  pub saddr : length e.saddr ≡ 16
  pub daddr : length e.daddr ≡ 16
  pub timestamp_ns : e.timestamp_ns < 2 ^ 64

net_kind_back : (k : NetEventKind) → net_event_kind (le_num (net_event_kind_byte k ∷ [])) ≡ some k
unfolding net_event_kind net_event_kind_byte le_num
net_kind_back state_change = refl
net_kind_back retransmit = refl

-- A record of a connection takes 56 bytes and is read back from them, whatever the padding holds.
pub net_round_trip :
    (fill : ℕ) (e : NetEvent)
    → NetInRange e
    → (length (encode_net fill e) ≡ net_event_size) × (decode_net (encode_net fill e) ≡ some e)
unfolding encode_net decode_net le_bytes num_at at
net_round_trip fill e r =
    let tail = replicate 6 fill ++ le_bytes 8 e.timestamp_ns in
    (
      omega (
        arith,
        length-append e.saddr (e.daddr ++ tail),
        length-append e.daddr tail,
        r.saddr,
        r.daddr,
      ),
      rw (net_kind_back e.kind) (λ i. some (record {
        kind = e.kind;
        family = le_num2 e.family r.family i;
        state = le_num2 e.state r.state i;
        sport = le_num2 e.sport r.sport i;
        dport = le_num2 e.dport r.dport i;
        saddr = take_first 16 e.saddr (e.daddr ++ tail) r.saddr i;
        daddr =
            (ap (take 16) (drop_past 16 0 e.saddr (e.daddr ++ tail) r.saddr)
                ∙ take_first 16 e.daddr tail r.daddr)
              i;
        timestamp_ns =
            (ap (λ l. le_num (take 8 l))
                  (drop_past 16 22 e.saddr (e.daddr ++ tail) r.saddr
                    ∙ drop_past 16 6 e.daddr tail r.daddr)
                ∙ le_num8 e.timestamp_ns r.timestamp_ns)
              i;
      })),
    )
