-- ===== src/Kernel/Syscalls/Execbuf/Tests.antt =====
-- Runs of buffers of system calls.
use camellia.Base.{ℕ, ◌+◌, ◌≡◌, refl, [], ◌∷◌, some, ◌==◌, if◌then◌else◌}
use camellia.Kernel.State.{ExecBuf}
use camellia.Kernel.Syscalls.Execbuf.{
  scan, instruction, instruction_with, decode, jump_with, call_with, try_fetch, words_at, number_at,
  called, halted,
}
use camellia.Kernel.Syscalls.Execbuf.Scan.{Finds, scan-Asks}

-- EXECBUF_JMP and the address 5, and then EXECBUF_SYSCALL and six words, of which the first is 7
abbrev code : ℕ → ℕ
code a =
    if a == 0
    then 2
    else if a == 8
    then 5
    else if a == 16
    then 1
    else if a == 3
    then 240
    else if a == 19
    then 240
    else if a == 24
    then 7
    else 0

abbrev code_buf : ExecBuf
code_buf = record { buf = 0; len = 72; pos = 0 }

jumps_and_calls :
    scan 73 code code_buf 0
    ≡ some (called (7 ∷ 0 ∷ 0 ∷ 0 ∷ 0 ∷ 0 ∷ []), record code_buf { pos = 72 }, 5)
unfolding scan instruction instruction_with decode jump_with call_with try_fetch words_at number_at
jumps_and_calls = refl

-- the call is cut short
cut_short :
    scan 72 code (record code_buf { len = 71 }) 0
    ≡ some (halted, record { buf = 0; len = 71; pos = 24 }, 5)
unfolding scan instruction instruction_with decode jump_with call_with try_fetch words_at number_at
cut_short = refl

scan-Asks_example : Finds code (code_buf.len + 1) code_buf 0
scan-Asks_example = scan-Asks code code_buf 0
