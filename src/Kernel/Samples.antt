-- ===== src/Kernel/Samples.antt =====
-- A kernel with nothing in it, and surroundings that do nothing, for examples.
use camellia.Base.{[], none, false, pos}
use camellia.Kernel.Machine.{Machine}
use camellia.Kernel.Pcpy.{Pcpy}
use camellia.Kernel.Syscalls.{Outside}
use camellia.Kernel.State.{pure, skip, Backend, Req, Handle, Kernel, blank_proc, open_op, invalid}

abbrev pub no_backend : Backend
no_backend = record {
  usehcnt = 0;
  provhcnt = 0;
  queue = [];
  is_user = false;
  handler = none;
  has_accept = false;
  has_cleanup = false;
  allocated = false;
}

abbrev pub no_req : Req
no_req = record {
  op = open_op;
  in_kern = false;
  in_buf = 0;
  in_len = 0;
  out_buf = 0;
  out_len = 0;
  id = 0;
  offset = pos 0;
  flags = 0;
  caller = none;
  backend = none;
  allocated = false;
}

abbrev pub no_handle : Handle
no_handle = record {
  type = invalid;
  backend = none;
  file_id = 0;
  readable = false;
  writeable = false;
  req = none;
  queued = [];
  sister = none;
  refcount = 1;
}

-- the addresses from 100 on are free
abbrev pub empty : Kernel
empty = record {
  procs = λ p. blank_proc;
  handles = λ h. no_handle;
  tables = λ t. [];
  backends = λ b. no_backend;
  reqs = λ r. no_req;
  mounts = λ m. record { prefix = []; prefix_owned = false; backend = none; refs = 0 };
  mount_root = [];
  counters = λ c. 0;
  mem = λ a. 0;
  buffers = λ a. false;
  goal = λ p. 0;
  scheduled = [];
  alarm = none;
  dead_leaves = [];
  first = none;
  next_pid = 1;
  next = 100;
}

-- copies that succeed and change nothing
abbrev pub still : Pcpy
still = record {
  bi = λ mem dst_pages dst src_pages src len. (len, mem);
  to = λ mem pages dst src len. (len, mem);
  send = λ mem pages dst r. (48, mem);
  put = λ mem pages dst words. (8, mem);
  from = λ mem dst src_pages src len. (len, mem);
  take = λ mem pages src len. [];
}

-- page tables with nothing in them
abbrev pub bare : Machine
bare = record {
  copy_pages = λ d. pure d;
  free_pages = λ d. skip;
  shutdown = skip;
  find_free = λ d addr len. pure addr;
  unmap_user = λ d addr len. skip;
  is_kern = λ d addr. pure false;
  virt2phys = λ d addr. pure none;
  map_new = λ d addr. skip;
  procfs_backend = λ p. pure 0;
  counter = pure 0;
  period = 1;
}

abbrev pub outside : Outside
outside = record {
  machine = bare;
  driver = record { accept = λ b r. skip; cleanup = λ b. skip };
  copy = still;
}
