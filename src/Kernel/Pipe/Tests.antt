-- ===== src/Kernel/Pipe/Tests.antt =====
-- A pipe with its reading end at 1 and its writing end at 2, and the theorems there.
use camellia.Base.{
  ℕ, List, [], ◌∷◌, Bool, true, false, Option, none, some, done, if◌then◌else◌, ◌≡◌, refl, inl, inr,
  arith,
}
use camellia.Kernel.State.{blank_proc, waits4pipe, pipe, Handle, Kernel, update}
use camellia.Kernel.Samples.{empty}
use camellia.Kernel.Pcpy.{Pcpy}
use camellia.Kernel.Pipe.{join_queue, copy_length}
use camellia.Kernel.Pipe.Inv.{IsPipe}
use camellia.Kernel.Pipe.Join.{join_waits}
use camellia.Kernel.Pipe.Match.{Matched, copy_for, join_matches}

-- a copy that always copies everything
abbrev whole : Pcpy
whole = record {
  send = λ mem dst_pages dst req. (48, mem);
  bi = λ mem dst_pages dst src_pages src len. (len, mem);
  to = λ mem dst_pages dst src len. (len, mem);
  put = λ mem dst_pages dst words. (0, mem);
  from = λ mem dst src_pages src len. (len, mem);
  take = λ mem pages src len. [];
}

abbrev end_of : (readable : Bool) (sister : Option ℕ) (queued : List ℕ) → Handle
end_of readable sister queued = record {
  type = pipe;
  backend = none;
  file_id = 0;
  readable = readable;
  writeable = if readable then false else true;
  req = none;
  queued = queued;
  sister = sister;
  refcount = 1;
}

-- process 8 waits at the writing end, to write 40 bytes
abbrev start : Kernel
start = record empty {
  procs =
      update (λ p. blank_proc) 8
        (record blank_proc { state = waits4pipe; pipe_end = 2; pipe_len = 40 });
  handles = update (λ h. end_of false none []) 1 (end_of true (some 2) []);
}

abbrev waiting_writer : Kernel
waiting_writer = record start { handles = update start.handles 2 (end_of false (some 1) (8 ∷ [])) }

waiting_writer-IsPipe : IsPipe waiting_writer 2 1
waiting_writer-IsPipe = record {
  near = record { is_pipe = refl; one_way = refl; waiting = (refl, tt); distinct = (tt, tt) };
  far = record { is_pipe = refl; one_way = refl; waiting = tt; distinct = tt };
  apart = omega arith;
  to_far = refl;
  to_near = refl;
  opposite = refl;
  exclusive = inr refl;
}

facing_writer-IsPipe : IsPipe waiting_writer 1 2
facing_writer-IsPipe = record {
  near = waiting_writer-IsPipe.far;
  far = waiting_writer-IsPipe.near;
  apart = omega arith;
  to_far = refl;
  to_near = refl;
  opposite = refl;
  exclusive = inl refl;
}

-- a second writer waits behind the first
join_waits_example :
    (k' : Kernel) × (join_queue whole 2 9 0 50 waiting_writer ≡ done (tt, k'))
    × IsPipe k' 2 1
    × ((k'.handles 2).queued ≡ 8 ∷ 9 ∷ [])
    × ((x : ℕ)
        → k'.procs x
          ≡ update waiting_writer.procs 9
              (record blank_proc { state = waits4pipe; pipe_end = 2; pipe_buf = 0; pipe_len = 50 })
              x)
join_waits_example = join_waits whole 2 1 9 0 50 waiting_writer waiting_writer-IsPipe refl refl

-- a reader of 10 bytes is served by it
join_matches_example :
    let result = copy_for whole waiting_writer false 9 0 10 8 in
    (k' : Kernel) × (join_queue whole 1 9 0 10 waiting_writer ≡ done (tt, k'))
    × IsPipe k' 1 2
    × Matched waiting_writer k' 1 2 9 0 10 8 result.0 []
    × (k'.mem ≡ result.1)
join_matches_example =
    join_matches whole 1 2 9 0 10 8 [] waiting_writer facing_writer-IsPipe refl refl

served_10 : (copy_for whole waiting_writer false 9 0 10 8).0 ≡ 10
unfolding copy_length
served_10 = refl
