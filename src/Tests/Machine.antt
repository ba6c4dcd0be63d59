-- ===== src/Tests/Machine.antt =====
-- A host whose maps are association lists and whose ring buffers are lists, and a few firings.
use peekbeam.Prelude.{
  ℕ, ◌≡◌, some, List, [], ◌∷◌, ◌++◌, arith, ◌==◌, nat_beq, nat_eq, ltb, ◌||◌, if◌then◌else◌,
}
use peekbeam.Data.Int.{ℤ, negsuc, as_unsigned}
use peekbeam.Data.Lists.{length, replicate}
use peekbeam.Data.Exec.{Result, ok, err, map_ok}
use peekbeam.Data.HashMap
use peekbeam.Data.HashMap.{HashMap}
use peekbeam.Ebpf.Host.{Host, BpfHashMap, RingBuf, TracePointContext}
use peekbeam.Ebpf.State.{Maps, is_some}

-- A map takes a key that it has, or a key more up to 128.
abbrev insert_bounded : {V : Type 0} → HashMap ℕ V → ℕ → V → Result (HashMap ℕ V)
insert_bounded m k v =
    if is_some (HashMap.get m k) || ltb (length m.entries) 128
    then ok (HashMap.insert m k v)
    else err (negsuc 6)

pub dict_laws :
    {V : Type 0} (m m' : HashMap ℕ V) (k j : ℕ) (v : V)
    → insert_bounded m k v ≡ ok m'
    → HashMap.get m' j ≡ (if k == j then some v else HashMap.get m j)
dict_laws m m' k j v e = ground (arith, e, HashMap.get-insert m k j v)

-- A ring holds up to 64 records.
abbrev output_bounded : {A : Type 0} → List A → A → Result (List A)
output_bounded r a = if ltb (length r) 64 then ok (r ++ a ∷ []) else err (negsuc 6)

pub tape_grows :
    {A : Type 0} (r r' : List A) (a : A) → output_bounded r a ≡ ok r' → r' ≡ r ++ a ∷ []
tape_grows r r' a e = ground (arith, e)

pub full_refuses : {A : Type 0} (r r' : List A) (a : A) → err (negsuc 6) ≡ ok r' → r' ≡ r ++ a ∷ []
full_refuses r r' a e = absurd (ground (arith, e))

abbrev pub dict : {V : Type 0} → BpfHashMap V
dict {V} = record {
  Map = HashMap ℕ V;
  get = HashMap.get;
  insert = insert_bounded;
  remove = HashMap.remove;
  get-insert = dict_laws;
  get-remove = HashMap.get-remove;
}

abbrev pub tape : {A : Type 0} → RingBuf A
tape {A} = record {
  Ring = List A;
  records = λ r. r;
  output = output_bounded;
  records-output = tape_grows;
}

-- A ring buffer that refuses every record.
abbrev pub full : {A : Type 0} → RingBuf A
full {A} = record {
  Ring = List A;
  records = λ r. r;
  output = λ r a. err (negsuc 6);
  records-output = full_refuses;
}

abbrev pub host : Host
host = record {
  u8_map = dict;
  open_map = dict;
  fd_map = dict;
  syscall_ring = tape;
  net_ring = tape;
  file_ring = tape;
  mem_ring = tape;
}

abbrev pub deaf : Host
deaf = record host { net_ring = full }

-- The target is the process 7.
abbrev pub pid_7 : HashMap ℕ ℕ
pid_7 = record { entries = (7, 1) ∷ [] }

abbrev pub begin : Maps host
begin = record {
  pid_filter = pid_7;
  cgroup_filter = HashMap.new;
  tracked_socks = HashMap.new;
  pending_open_path = HashMap.new;
  pending_fd = HashMap.new;
  events = [];
  net_events = [];
  file_events = [];
  mem_events = [];
}

-- A kernel record given by the numbers at its offsets.
abbrev field : List (ℕ × ℤ) → ℕ → Result ℤ
field [] off = err (negsuc 13)
field ((o, x) ∷ rest) off = if nat_beq o off then ok x else field rest off

-- "/a"
abbrev pub a_path : List ℕ
a_path = 0x2f ∷ 0x61 ∷ replicate 62 0

abbrev pub fired : ℕ → ℕ → List (ℕ × ℤ) → TracePointContext
fired tgid now fields = record {
  tgid = tgid;
  cgroup_id = 1;
  ktime_ns = now;
  read_u64 = λ off. map_ok (as_unsigned 64) (field fields off);
  read_i64 = field fields;
  read_i32 = field fields;
  read_u16 = λ off. map_ok (as_unsigned 16) (field fields off);
  read_bytes = λ n off. ok (replicate n off);
  read_user_str = λ ptr buf. ok (a_path, 2);
}
