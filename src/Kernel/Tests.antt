-- ===== src/Kernel/Tests.antt =====
-- A client 5 and a server 6 of the backend 3, and the theorems on processes, handle tables and
-- requests there.
use camellia.Base.{
  ℕ, ◌≡◌, refl, [], ◌∷◌, true, false, none, some, done, panic, inl, arith, pos, neg,
}
use camellia.Kernel.State.{
  blank_proc, ProcState, running, dying, tombstone, deadleaf, freed, waits4request, file, open_op,
  read_op, close_op, Proc, Backend, Req, Kernel, update, skip,
}
use camellia.Kernel.Samples.{empty}
use camellia.Kernel.Pcpy.{Pcpy}
use camellia.Kernel.Proc.{set_state}
use camellia.Kernel.Proc.States.{Trace, start, change, Died, freed-Died}
use camellia.Kernel.Table.{Table, free_from, find_free_handle, hid_take, blank}
use camellia.Kernel.Table.Free.{IsFirstFree, find_free_handle_lem}
use camellia.Kernel.Request.{Driver, create, refdown_prov, try_accept}
use camellia.Kernel.Request.Queue.{Queued, IsBusy, create_waits}
use camellia.Kernel.Request.Orphan.{IsLast, refdown_prov_panics}
use camellia.Kernel.Request.Deliver.{Delivered, try_accept_delivers}
use camellia.Kernel.Request.Refuse.{Refused, create-Refused}
use camellia.Kernel.Handle.{handle_put}
use camellia.Kernel.Handle.PutTake.{put_take}

abbrev driver : Driver
driver = record { accept = λ b r. skip; cleanup = λ b. skip }

abbrev whole : Pcpy
whole = record {
  bi = λ mem dst_pages dst src_pages src len. (len, mem);
  to = λ mem dst_pages dst src len. (len, mem);
  send = λ mem dst_pages dst req. (48, mem);
  put = λ mem dst_pages dst words. (0, mem);
  from = λ mem dst src_pages src len. (len, mem);
  take = λ mem pages src len. [];
}

abbrev client : Proc
client = record blank_proc { handles = 5 }

abbrev server : Proc
server = record client { state = waits4request; handles = 6; req_max_len = 100 }

abbrev read_request : Req
read_request = record {
  op = read_op;
  in_kern = false;
  in_buf = 0;
  in_len = 0;
  out_buf = 64;
  out_len = 10;
  id = 7;
  offset = pos 0;
  flags = 0;
  caller = some 5;
  backend = some 3;
  allocated = true;
}

-- OPEN_CREATE with the path in a buffer of the kernel
abbrev create_only : Req
create_only = record read_request {
  op = open_op;
  flags = 4;
  in_kern = true;
  in_buf = 64;
  in_len = 5;
  out_len = 0;
}

abbrev close_only : Req
close_only = record read_request { op = close_op; out_len = 0; caller = none }

abbrev backend : Backend
backend = record {
  usehcnt = 2;
  provhcnt = 1;
  queue = [];
  is_user = true;
  handler = none;
  has_accept = false;
  has_cleanup = false;
  allocated = true;
}

-- HANDLE_MAX entries, of which the first two are used
abbrev entries : Table
entries =
    some 1
    ∷ some 2
    ∷ none
    ∷ none
    ∷ none
    ∷ none
    ∷ none
    ∷ none
    ∷ none
    ∷ none
    ∷ none
    ∷ none
    ∷ none
    ∷ none
    ∷ none
    ∷ none
    ∷ []

abbrev busy : Kernel
busy = record empty {
  procs = update (λ p. client) 6 server;
  handles = λ h. blank file;
  tables = λ t. entries;
  backends = λ b. backend;
  reqs = λ r. read_request;
}

abbrev in_state : ProcState → Kernel → Kernel
in_state s k = record k { procs = update k.procs 5 (record (k.procs 5) { state = s }) }

abbrev dead : Kernel
dead = in_state freed (in_state deadleaf (in_state tombstone (in_state dying busy)))

life : Trace 5 dead (freed ∷ deadleaf ∷ tombstone ∷ dying ∷ running ∷ [])
unfolding set_state
life =
    change {k = in_state deadleaf (in_state tombstone (in_state dying busy))}
      (change {k = in_state tombstone (in_state dying busy)}
        (change {k = in_state dying busy} (change {k = busy} (start refl) refl) refl) refl)
      refl

freed-Died_example : Died (deadleaf ∷ tombstone ∷ dying ∷ running ∷ [])
freed-Died_example = freed-Died 5 dead (deadleaf ∷ tombstone ∷ dying ∷ running ∷ []) life

find_free_handle_lem_example : IsFirstFree entries 1 2
unfolding find_free_handle free_from
find_free_handle_lem_example = find_free_handle_lem entries 1 (omega arith)

third_free : find_free_handle entries (pos 1) ≡ some 2
unfolding find_free_handle free_from
third_free = refl

put_take_example :
    (k' k'' : Kernel) × (handle_put driver whole 5 9 busy ≡ done (pos 2, k'))
    × (hid_take 5 (pos 2) k' ≡ done (some 9, k''))
    × ((t : ℕ) → k''.tables t ≡ busy.tables t)
put_take_example = put_take driver whole 5 9 2 busy refl third_free

backend-IsBusy : IsBusy backend
backend-IsBusy = record { used = omega arith; provided = omega arith; user = refl; busy = refl }

create_waits_example :
    (k' : Kernel) × (create driver whole read_request busy ≡ done (tt, k'))
    × Queued busy k' 3 5 100 read_request
create_waits_example =
    create_waits driver whole 3 5 read_request busy refl refl refl refl backend-IsBusy

create-Refused_example :
    (k' : Kernel) × (create driver whole create_only busy ≡ done (tt, k'))
    × Refused busy k' 5 100 create_only (neg 4)
create-Refused_example =
    create-Refused driver whole 3 5 create_only busy refl refl refl (omega arith) (inl refl)

-- the client has exited, and only its close request is left
abbrev exited : Kernel
exited = record busy {
  backends = λ b. record backend { usehcnt = 1; queue = 50 ∷ [] };
  reqs = λ r. close_only;
}

exited-IsLast : IsLast (exited.backends 3) 1 50 []
exited-IsLast = record { uses = refl; provides = refl; waits = refl; user = refl; busy = refl }

refdown_prov_panics_example : refdown_prov driver 3 exited ≡ panic
refdown_prov_panics_example = refdown_prov_panics driver 3 50 [] exited exited-IsLast refl

-- the server waits, and two requests are queued
abbrev ready : Kernel
ready = record busy {
  backends = λ b. record backend { usehcnt = 4; queue = 50 ∷ 51 ∷ []; handler = some 6 };
}

try_accept_delivers_example :
    (k' : Kernel) × (try_accept driver whole 3 ready ≡ done (tt, k'))
    × Delivered ready k' 3 50 6 2 (51 ∷ [])
try_accept_delivers_example =
    try_accept_delivers driver whole 3 50 6 2 5 (51 ∷ []) ready refl refl refl refl refl third_free
      (λ m res. refl)
