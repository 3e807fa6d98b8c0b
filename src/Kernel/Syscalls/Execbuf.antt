-- ===== src/Kernel/Syscalls/Execbuf.antt =====
-- src/kernel/execbuf.c: a buffer of system calls that the kernel runs for a process. The numbers in
-- it are 64 bits wide, lowest byte first. What the interpreter reads is apart from what it then
-- does: `scan` follows the jumps up to a system call or to the end.
pub mod Scan
mod Tests
use camellia.Base.{
  ℕ, zero, suc, ◌+◌, ◌*◌, ◌^◌, List, [], ◌∷◌, Bool, true, false, Option, none, some, Outcome, done,
  panic, ltb, ◌==◌, if◌then◌else◌,
}
use camellia.Kernel.State.{
  ExecBuf, Proc, Kernel, M, pure, ◌>>=◌, ◌>>◌, check, skip, proc, set_proc, free_buffer,
}
use camellia.Kernel.Proc.{is_running}
use camellia.Kernel.Syscalls.{Outside}
use camellia.Kernel.Syscalls.Schedule.{switch_any}
use camellia.Kernel.Syscalls.Dispatch.{syscall}

-- EXECBUF_SYSCALL, EXECBUF_JMP
abbrev pub execbuf_syscall : ℕ
execbuf_syscall = 4026531841

abbrev pub execbuf_jmp : ℕ
execbuf_jmp = 4026531842

-- the `n` bytes at `a`, as a number
unfoldable pub number_at : (mem : ℕ → ℕ) (a n : ℕ) → ℕ
number_at mem a zero = 0
number_at mem a (suc n) = mem a + 256 * number_at mem (suc a) n

-- the `amt` words at `a`
unfoldable pub words_at : (mem : ℕ → ℕ) (a amt : ℕ) → List ℕ
words_at mem a zero = []
words_at mem a (suc amt) = number_at mem a 8 ∷ words_at mem (a + 8) amt

-- try_fetch: the words, and the buffer behind them; `none` where it halts
unfoldable pub try_fetch : (mem : ℕ → ℕ) → ExecBuf → (amt : ℕ) → Option (List ℕ × ExecBuf)
try_fetch mem e amt =
    if ltb e.len (e.pos + amt * 8)
    then none
    else some (words_at mem (e.buf + e.pos) amt, record e { pos = e.pos + amt * 8 })

-- how the loop of `execbuf_run` ends: at `halt`, or at a system call with the number and arguments
pub data Ending : Type 0 where
  halted : Ending
  called : List ℕ → Ending

-- an instruction: the words `op`, fetched, and what the loop does next
pub data Next : Type 0 where
  jumps : ℕ → ExecBuf → Next
  ends : Ending → ExecBuf → Next

unfoldable pub call_with : ExecBuf → Option (List ℕ × ExecBuf) → Next
call_with e none = ends halted e
call_with e (some (ws, e')) = ends (called ws) e'

unfoldable pub jump_with : ExecBuf → Option (List ℕ × ExecBuf) → Next
jump_with e (some (to ∷ ws, e')) = jumps to e'
jump_with e _ = ends halted e

unfoldable pub decode : (mem : ℕ → ℕ) → (op : ℕ) → ExecBuf → Next
decode mem op e =
    if op == execbuf_syscall
    then call_with e (try_fetch mem e 6)
    else if op == execbuf_jmp
    then jump_with e (try_fetch mem e 1)
    else ends halted e

unfoldable pub instruction_with : (mem : ℕ → ℕ) → ExecBuf → Option (List ℕ × ExecBuf) → Next
instruction_with mem e (some (op ∷ ws, e')) = decode mem op e'
instruction_with mem e _ = ends halted e

-- the loop body of `execbuf_run`
unfoldable pub instruction : (mem : ℕ → ℕ) → ExecBuf → Next
instruction mem e = instruction_with mem e (try_fetch mem e 1)

-- the loop: the ending, the buffer and `%rcx` there; `none` is the lack of fuel
unfoldable pub scan :
    (fuel : ℕ) → (mem : ℕ → ℕ) → ExecBuf → (rcx : ℕ) → Option (Ending × ExecBuf × ℕ)
scan zero mem e rcx = none
scan (suc fuel) mem e rcx = elim (instruction mem e) [
  | ends t e' ↦ some (t, e', rcx)
  | jumps to e' ↦ scan fuel mem e' to
]

module _ (o : Outside) (cur : ℕ) where
  -- halt
  unfoldable pub halt : ℕ → M (Option ℕ)
  halt buf = do
    free_buffer buf
    x ← proc cur
    set_proc cur (record x { execbuf = none })
    switch_any o.copy (some cur)

  -- the process to go on with after a system call
  unfoldable pub go_on : Option (Option ℕ) → M (Option ℕ)
  go_on none = switch_any o.copy (some cur)
  go_on (some p) = pure p

  unfoldable pub finish_scan : Option (Ending × ExecBuf × ℕ) → M (Option ℕ)
  finish_scan none = λ k. panic
  finish_scan (some (t, e, rcx)) = do
    x ← proc cur
    set_proc cur (record x { execbuf = some e; rcx = rcx })
    elim t [
      | called (n ∷ a ∷ b ∷ c ∷ d ∷ f ∷ ws) ↦ do p ← syscall o cur n a b c d f; go_on p
      | _ ↦ halt e.buf
    ]

  -- execbuf_run
  unfoldable pub execbuf_run : Option ExecBuf → M (Option ℕ)
  execbuf_run none = λ k. panic
  execbuf_run (some e) = do
    x ← proc cur
    check (is_running x.state)
    (λ k. finish_scan (scan (e.len + 1) k.mem e x.rcx) k)
