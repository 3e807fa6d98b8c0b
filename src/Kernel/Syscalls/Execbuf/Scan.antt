-- ===== src/Kernel/Syscalls/Execbuf/Scan.antt =====
-- What a buffer of system calls asks for, read off its words, and the interpreter of
-- src/kernel/execbuf.c that finds it.
use native.Mathlib.Decide.{dec_lt, ℕ_discrete}
use camellia.Base.{
  ℕ, zero, suc, ◌+◌, ◌-◌, ◌*◌, ◌<◌, ◌≤◌, ◌≡◌, ◌≢◌, ◌∙◌, refl, true, false, Option, none, some,
  arith, ltb, ◌==◌,
}
use camellia.Kernel.State.{ExecBuf}
use camellia.Kernel.Syscalls.Execbuf.{
  scan, instruction, instruction_with, decode, jump_with, call_with, try_fetch, words_at, number_at,
  Ending, Next, ends, jumps, halted, called, execbuf_syscall, execbuf_jmp,
}

-- the word at the position
abbrev pub word : (mem : ℕ → ℕ) → ExecBuf → ℕ
word mem e = number_at mem (e.buf + e.pos) 8

-- the buffer `n` words later
abbrev pub beyond : (n : ℕ) → ExecBuf → ExecBuf
beyond n e = record e { pos = e.pos + n * 8 }

-- the buffer has `n` more words
abbrev pub Holds : (n : ℕ) → ExecBuf → Type 0
Holds n e = e.pos + n * 8 ≤ e.len

abbrev pub Lacks : (n : ℕ) → ExecBuf → Type 0
Lacks n e = e.len < e.pos + n * 8

-- `Asks mem e rcx r`: a buffer at `e`, with `rcx` in its register, ends as `r` says. A call is its word
-- and six more, a jump its word and one more; what is cut short, and any other word, halts.
pub data Asks (mem : ℕ → ℕ) : ExecBuf → ℕ → Ending × ExecBuf × ℕ → Type 0 where
  at_end : {e : ExecBuf} {rcx : ℕ} → Lacks 1 e → Asks mem e rcx (halted, e, rcx)
  call :
      {e : ExecBuf} {rcx : ℕ}
      → Holds 1 e
      → word mem e ≡ execbuf_syscall
      → Holds 6 (beyond 1 e)
      → Asks mem e rcx
          (called (words_at mem (e.buf + (beyond 1 e).pos) 6), beyond 6 (beyond 1 e), rcx)
  cut_call :
      {e : ExecBuf} {rcx : ℕ}
      → Holds 1 e
      → word mem e ≡ execbuf_syscall
      → Lacks 6 (beyond 1 e)
      → Asks mem e rcx (halted, beyond 1 e, rcx)
  jump :
      {e : ExecBuf} {rcx : ℕ} {r : Ending × ExecBuf × ℕ}
      → Holds 1 e
      → word mem e ≡ execbuf_jmp
      → Holds 1 (beyond 1 e)
      → Asks mem (beyond 1 (beyond 1 e)) (word mem (beyond 1 e)) r
      → Asks mem e rcx r
  cut_jump :
      {e : ExecBuf} {rcx : ℕ}
      → Holds 1 e
      → word mem e ≡ execbuf_jmp
      → Lacks 1 (beyond 1 e)
      → Asks mem e rcx (halted, beyond 1 e, rcx)
  unknown :
      {e : ExecBuf} {rcx : ℕ}
      → Holds 1 e
      → word mem e ≢ execbuf_syscall
      → word mem e ≢ execbuf_jmp
      → Asks mem e rcx (halted, beyond 1 e, rcx)

module _ (mem : ℕ → ℕ) where
  -- a run of the interpreter that ends as the buffer asks for
  abbrev pub Finds : (fuel : ℕ) → ExecBuf → ℕ → Type 0
  Finds fuel e rcx = (r : Ending × ExecBuf × ℕ) × (scan fuel mem e rcx ≡ some r) × Asks mem e rcx r

  try_fetch-Holds :
      (e : ExecBuf) (amt : ℕ)
      → Holds amt e
      → try_fetch mem e amt ≡ some (words_at mem (e.buf + e.pos) amt, beyond amt e)
  unfolding try_fetch
  try_fetch-Holds e amt h =
      let fits : ltb e.len (e.pos + amt * 8) ≡ false = ground (arith, h) in rw fits refl

  try_fetch-Lacks : (e : ExecBuf) (amt : ℕ) → Lacks amt e → try_fetch mem e amt ≡ none
  unfolding try_fetch
  try_fetch-Lacks e amt h =
      let short : ltb e.len (e.pos + amt * 8) ≡ true = ground (arith, h) in rw short refl

  instruction-Holds :
      (e : ExecBuf) → Holds 1 e → instruction mem e ≡ decode mem (word mem e) (beyond 1 e)
  unfolding instruction instruction_with words_at
  instruction-Holds e h = rw (try_fetch-Holds e 1 h) refl

  -- what the loop comes to after an instruction
  abbrev after : (fuel rcx : ℕ) → Next → Option (Ending × ExecBuf × ℕ)
  after fuel rcx (ends t e) = some (t, e, rcx)
  after fuel rcx (jumps to e) = scan fuel mem e to

  scan_step :
      (fuel : ℕ) (e : ExecBuf) (rcx : ℕ) (n : Next)
      → instruction mem e ≡ n
      → scan (suc fuel) mem e rcx ≡ after fuel rcx n
  unfolding scan
  scan_step fuel e rcx (ends t d) i = cc
  scan_step fuel e rcx (jumps to d) i = cc

  scan_call :
      (fuel : ℕ) (e : ExecBuf) (rcx : ℕ)
      → Holds 1 e
      → word mem e ≡ execbuf_syscall
      → Finds (suc fuel) e rcx
  unfolding decode call_with
  scan_call fuel e rcx h w =
      let is_call : (word mem e == execbuf_syscall) ≡ true = ground (arith, w) in
      elim (dec_lt e.len ((beyond 1 e).pos + 48)) [
        | yes short ↦ (
          (halted, beyond 1 e, rcx),
          scan_step fuel e rcx (ends halted (beyond 1 e))
              (rw (instruction-Holds e h, is_call, try_fetch-Lacks (beyond 1 e) 6 short) refl),
          cut_call h w short,
        )
        | no fits ↦ (
          (called (words_at mem (e.buf + (beyond 1 e).pos) 6), beyond 6 (beyond 1 e), rcx),
          scan_step fuel e rcx
              (ends (called (words_at mem (e.buf + (beyond 1 e).pos) 6)) (beyond 6 (beyond 1 e)))
              (rw (instruction-Holds e h, is_call, try_fetch-Holds (beyond 1 e) 6 (omega arith))
                refl),
          call h w (omega arith),
        )
      ]

  scan_jump :
      (fuel : ℕ) (e : ExecBuf) (rcx : ℕ)
      → Holds 1 e
      → word mem e ≡ execbuf_jmp
      → (Holds 1 (beyond 1 e) → Finds fuel (beyond 1 (beyond 1 e)) (word mem (beyond 1 e)))
      → Finds (suc fuel) e rcx
  unfolding decode jump_with words_at
  scan_jump fuel e rcx h w rest =
      let no_call : (word mem e == execbuf_syscall) ≡ false = ground (arith, w) in
      let is_jump : (word mem e == execbuf_jmp) ≡ true = ground (arith, w) in
      elim (dec_lt e.len ((beyond 1 e).pos + 8)) [
        | yes short ↦ (
          (halted, beyond 1 e, rcx),
          scan_step fuel e rcx (ends halted (beyond 1 e)) (
              rw (instruction-Holds e h, no_call, is_jump, try_fetch-Lacks (beyond 1 e) 1 short)
                refl),
          cut_jump h w short,
        )
        | no fits ↦
            let (r, run, asks) = rest (omega arith) in
            (
              r,
              scan_step fuel e rcx (jumps (word mem (beyond 1 e)) (beyond 1 (beyond 1 e))) (
                    rw
                      (
                        instruction-Holds e h,
                        no_call,
                        is_jump,
                        try_fetch-Holds (beyond 1 e) 1 (omega arith),
                      )
                      refl)
                  ∙ run,
              jump h w (omega arith) asks,
            )
      ]

  scan_unknown :
      (fuel : ℕ) (e : ExecBuf) (rcx : ℕ)
      → Holds 1 e
      → word mem e ≢ execbuf_syscall
      → word mem e ≢ execbuf_jmp
      → Finds (suc fuel) e rcx
  unfolding decode
  scan_unknown fuel e rcx h c j =
      let no_call : (word mem e == execbuf_syscall) ≡ false = ground (arith, c) in
      let no_jump : (word mem e == execbuf_jmp) ≡ false = ground (arith, j) in
      (
        (halted, beyond 1 e, rcx),
        scan_step fuel e rcx (ends halted (beyond 1 e))
            (rw (instruction-Holds e h, no_call, no_jump) refl),
        unknown h c j,
      )

  scan_from : (fuel : ℕ) (e : ExecBuf) (rcx : ℕ) → e.len - e.pos < fuel → Finds fuel e rcx
  unfolding instruction instruction_with
  scan_from zero e rcx h = absurd (omega arith)
  scan_from (suc fuel) e rcx h = elim (dec_lt e.len (e.pos + 8)) [
    | yes short ↦ (
      (halted, e, rcx),
      scan_step fuel e rcx (ends halted e) (rw (try_fetch-Lacks e 1 short) refl),
      at_end short,
    )
    | no fits ↦ elim (ℕ_discrete (word mem e) execbuf_syscall) [
      | yes c ↦ scan_call fuel e rcx (omega arith) c
      | no c ↦ elim (ℕ_discrete (word mem e) execbuf_jmp) [
        | yes j ↦
            scan_jump fuel e rcx (omega arith) j
              (λ more. scan_from fuel (beyond 1 (beyond 1 e)) (word mem (beyond 1 e)) (omega arith))
        | no j ↦ scan_unknown fuel e rcx (omega arith) c j
      ]
    ]
  ]

  -- The interpreter of a buffer of system calls ends as the buffer asks for: it follows the jumps, each of
  -- which sets the register, up to a complete call, which it finds with its six words, or up to an
  -- unknown word, an instruction that is cut short or the end, where it halts. One step more than the
  -- buffer has bytes is enough.
  pub scan-Asks : (e : ExecBuf) (rcx : ℕ) → Finds (e.len + 1) e rcx
  scan-Asks e rcx = scan_from (e.len + 1) e rcx (omega arith)
