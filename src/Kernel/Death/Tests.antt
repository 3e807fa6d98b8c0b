-- ===== src/Kernel/Death/Tests.antt =====
-- Runs of the end of a process.
use camellia.Base.{◌≡◌, refl, [], ◌∷◌, some, done, pos, ◌==◌, if◌then◌else◌, arith}
use camellia.Kernel.State.{blank_proc, Kernel, toreap, waits4childdeath}
use camellia.Kernel.Samples.{empty, still}
use camellia.Kernel.Tree.{ns_id}
use camellia.Kernel.Death.{tryreap}
use camellia.Kernel.Death.Reap.{IsAwaited, Reaped, tryreap-Reaped}

-- process 1, in its own namespace, waits for its child 2, whose local id is 4
abbrev mourning : Kernel
mourning = record empty {
  procs = λ p.
      if p == 1
      then record blank_proc { state = waits4childdeath; children = 2 ∷ []; pns = 1; nextlid = 5 }
      else record blank_proc {
        state = toreap;
        parent = some 1;
        pns = 1;
        localid = 4;
        death_msg = pos 7;
      };
}

mourning-IsAwaited : IsAwaited still mourning 2 1 4 (λ e. absurd (omega arith))
unfolding ns_id
mourning-IsAwaited = record {
  is_dead = refl;
  reapable = refl;
  childless = refl;
  parent = refl;
  waits = refl;
  child = refl;
  id = refl;
  wanted = refl;
}

tryreap-Reaped_example :
    (k' : Kernel) × (tryreap still 2 mourning ≡ done (tt, k')) × Reaped still mourning k' 2 1 4
tryreap-Reaped_example =
    tryreap-Reaped still mourning 2 1 4 (λ e. absurd (omega arith)) mourning-IsAwaited
