-- ===== src/SyscallTable.antt =====
-- peekbeam/src/syscall_table.rs: the name of a syscall, its category and a line on it.
use peekbeam.Prelude.{ℕ, Bool, false, ◌||◌, Option, List, [], ◌∷◌, ◌++◌, list_beq, if◌then◌else◌}
use peekbeam.Data.HashMap.{or_default}
use peekbeam.Data.Text.{Text, text}

pub record SyscallInfo : Type 0 where
  pub name : Text
  pub category : Text
  pub annotation : Text

-- One arm of the `match`: the names, and the pair that it yields.
pub record Arm : Type 0 where
  pub names : List Text
  pub category : Text
  pub annotation : Text

abbrev arm : List Text → Text → Text → Arm
arm names category annotation = record {
  names = names;
  category = category;
  annotation = annotation;
}

file_arms : List Arm
file_arms =
    arm (text "read" ∷ text "pread64" ∷ text "readv" ∷ text "preadv" ∷ text "preadv2" ∷ [])
      (text "File I/O") (text "reading from a file descriptor")
    ∷ arm (text "write" ∷ text "pwrite64" ∷ text "writev" ∷ text "pwritev" ∷ text "pwritev2" ∷ [])
        (text "File I/O") (text "writing to a file descriptor")
    ∷ arm (text "openat" ∷ text "openat2" ∷ text "open" ∷ text "creat" ∷ []) (text "File I/O")
        (text "opening a file")
    ∷ arm (text "close" ∷ text "close_range" ∷ []) (text "File I/O")
        (text "closing a file descriptor")
    ∷ arm (text "fstat" ∷ text "newfstatat" ∷ text "statx" ∷ text "stat" ∷ text "lstat" ∷ [])
        (text "File I/O") (text "checking file metadata")
    ∷ arm (text "lseek" ∷ []) (text "File I/O") (text "moving the read/write position in a file")
    ∷ arm (text "getdents64" ∷ []) (text "File I/O") (text "reading directory entries")
    ∷ arm (text "ioctl" ∷ []) (text "File I/O") (text "device-specific control operation")
    ∷ arm (text "fsync" ∷ text "fdatasync" ∷ []) (text "File I/O")
        (text "flushing file data to disk")
    ∷ []

network_arms : List Arm
network_arms =
    arm (text "socket" ∷ []) (text "Networking") (text "creating a network socket")
    ∷ arm (text "connect" ∷ []) (text "Networking") (text "connecting to a remote address")
    ∷ arm (text "accept" ∷ text "accept4" ∷ []) (text "Networking")
        (text "accepting an incoming connection")
    ∷ arm (text "sendto" ∷ text "sendmsg" ∷ text "sendmmsg" ∷ []) (text "Networking")
        (text "sending data on a socket")
    ∷ arm (text "recvfrom" ∷ text "recvmsg" ∷ text "recvmmsg" ∷ []) (text "Networking")
        (text "receiving data on a socket")
    ∷ arm (text "bind" ∷ []) (text "Networking") (text "binding a socket to an address")
    ∷ arm (text "listen" ∷ []) (text "Networking") (text "listening for incoming connections")
    ∷ arm
        (text "epoll_wait"
          ∷ text "epoll_pwait"
          ∷ text "epoll_pwait2"
          ∷ text "epoll_ctl"
          ∷ text "epoll_create1"
          ∷ [])
        (text "Networking") (text "waiting on / managing I/O readiness (often sockets)")
    ∷ arm (text "poll" ∷ text "ppoll" ∷ text "select" ∷ text "pselect6" ∷ []) (text "Networking")
        (text "waiting on multiple file descriptors for I/O readiness")
    ∷ arm (text "getsockopt" ∷ text "setsockopt" ∷ []) (text "Networking")
        (text "reading/setting socket options")
    ∷ arm (text "shutdown" ∷ []) (text "Networking")
        (text "shutting down part of a socket connection")
    ∷ []

process_arms : List Arm
process_arms =
    arm (text "clone" ∷ text "clone3" ∷ text "fork" ∷ text "vfork" ∷ []) (text "Process/Thread")
      (text "creating a new process/thread")
    ∷ arm (text "execve" ∷ text "execveat" ∷ []) (text "Process/Thread")
        (text "replacing the process image (running a new program)")
    ∷ arm (text "exit" ∷ text "exit_group" ∷ []) (text "Process/Thread")
        (text "terminating the process/thread")
    ∷ arm (text "wait4" ∷ text "waitid" ∷ []) (text "Process/Thread")
        (text "waiting for a child process to change state")
    ∷ arm (text "sched_yield" ∷ []) (text "Process/Thread")
        (text "yielding the CPU to another thread")
    ∷ arm (text "sched_getaffinity" ∷ text "sched_setaffinity" ∷ []) (text "Process/Thread")
        (text "reading/setting which CPUs this thread may run on")
    ∷ arm (text "gettid" ∷ text "getpid" ∷ text "getppid" ∷ []) (text "Process/Thread")
        (text "reading a process/thread ID")
    ∷ arm (text "set_tid_address" ∷ text "set_robust_list" ∷ text "prctl" ∷ [])
        (text "Process/Thread") (text "thread/process bookkeeping for the kernel")
    ∷ []

memory_arms : List Arm
memory_arms =
    arm (text "mmap" ∷ []) (text "Memory") (text "mapping memory (file-backed or anonymous)")
    ∷ arm (text "munmap" ∷ []) (text "Memory") (text "unmapping memory")
    ∷ arm (text "mprotect" ∷ []) (text "Memory") (text "changing memory protection flags")
    ∷ arm (text "brk" ∷ []) (text "Memory") (text "adjusting the heap break")
    ∷ arm (text "madvise" ∷ []) (text "Memory") (text "giving the kernel a memory usage hint")
    ∷ arm (text "mremap" ∷ []) (text "Memory") (text "resizing/moving an existing memory mapping")
    ∷ []

lock_arms : List Arm
lock_arms =
    arm (text "futex" ∷ []) (text "Synchronization") (text "waiting on or waking a lock")
    ∷ arm
        (text "rt_sigaction"
          ∷ text "rt_sigprocmask"
          ∷ text "rt_sigreturn"
          ∷ text "rt_sigsuspend"
          ∷ text "tgkill"
          ∷ [])
        (text "Synchronization") (text "signal handling setup or delivery")
    ∷ []

has_name : Text → List Text → Bool
unfolding list_beq
has_name name [] = false
has_name name (n ∷ ns) = list_beq name n || has_name name ns

-- The arms in their order; the last one takes what is left.
first_arm : List Arm → Text → Arm → Arm
unfolding has_name
first_arm [] name other = other
first_arm (a ∷ rest) name other =
    let later = first_arm rest name other in if has_name name a.names then a else later

unfoldable pub classify : Text → Text × Text
unfolding first_arm file_arms network_arms process_arms memory_arms lock_arms
classify name =
    let a =
      first_arm (file_arms ++ (network_arms ++ (process_arms ++ (memory_arms ++ lock_arms)))) name
        (arm [] (text "Other") (text "uncommon syscall, no plain-language annotation yet")) in
    (a.category, a.annotation)

-- `sysno` is `syscalls::Sysno::new(nr).map(|s| s.name())`, the names of the machine's syscalls.
unfoldable pub lookup : (ℕ → Option Text) → ℕ → SyscallInfo
lookup sysno nr =
    let name = or_default (text "unknown") (sysno nr) in
    record { name = name; category = (classify name).0; annotation = (classify name).1 }
