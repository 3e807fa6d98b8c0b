-- ===== src/Libk/Printf/Cache.antt =====
-- The cache of `struct out_state`: the bytes go to `back` in order and none is lost, for a `back` that
-- takes bytes in parts as it takes them at once.
use native.Mathlib.Decide.{dec_lt}
use camellia.Base.{
  ℕ, ◌+◌, ◌%◌, ◌^◌, ◌<◌, ◌≤◌, ◌≡◌, ◌∙◌, refl, sym, ap, List, [], ◌∷◌, ◌++◌, length, append-nil,
  length-append, arith,
}
use camellia.Libk.Printf.{Out, flush, output}

module _ {S : Type 0} (back : S → List ℕ → S) where
  -- `back` is not called when there are no bytes
  abbrev pub feed : S → List ℕ → S
  feed s [] = s
  feed s (b ∷ bs) = back s (b ∷ bs)

  feed-some : (s : S) (bs : List ℕ) → 0 < length bs → feed s bs ≡ back s bs
  feed-some s [] h = absurd (omega arith)
  feed-some s (b ∷ bs) h = refl

-- What `back` promises from a state on: it takes bytes in parts as it takes them at once.
pub record Sink {S : Type 0} (back : S → List ℕ → S) (start : S) : Type 1 where
  pub Ok : S → Type 0
  pub start_ok : Ok start
  pub keeps : (s : S) (xs : List ℕ) → Ok s → Ok (back s xs)
  pub parts : (s : S) (xs ys : List ℕ) → Ok s → back (back s xs) ys ≡ back s (xs ++ ys)

module _ {S : Type 0} (back : S → List ℕ → S) (start : S) (sink : Sink back start) where
  feed-Ok : (s : S) (xs : List ℕ) → sink.Ok s → sink.Ok (feed back s xs)
  feed-Ok s [] k = k
  feed-Ok s (x ∷ xs) k = sink.keeps s (x ∷ xs) k

  feed-append :
      (s : S) (xs ys : List ℕ) → sink.Ok s → feed back (feed back s xs) ys ≡ feed back s (xs ++ ys)
  feed-append s [] ys k = refl
  feed-append s (x ∷ xs) [] k = rw append-nil
  feed-append s (x ∷ xs) (y ∷ ys) k = sink.parts s (x ∷ xs) (y ∷ ys) k

  -- `bs` has been printed, to `back` or to the cache
  pub record Holds (os : Out S) (bs : List ℕ) : Type 0 where
    pub ok : sink.Ok os.backarg
    pub fed : feed back os.backarg os.cache ≡ feed back start bs
    pub count : (os.written + length os.cache) % 2 ^ 32 ≡ length bs % 2 ^ 32
    pub room : length os.cache < 64
    pub width : os.written < 2 ^ 32

  -- what `flush` leaves
  pub flush_lem :
      (b : S) (w : ℕ) (cs : List ℕ)
      → w < 2 ^ 32
      → flush back (record { backarg = b; written = w; cache = cs })
        ≡ record { backarg = feed back b cs; written = (w + length cs) % 2 ^ 32; cache = [] }
  unfolding flush
  flush_lem b w [] h =
      let e : w ≡ (w + 0) % 2 ^ 32 = omega arith in
      ap {B = Out S} (λ n. record { backarg = b; written = n; cache = [] }) e
  flush_lem b w (c ∷ cs) h = refl

  output-cached :
      (os : Out S) (buf : List ℕ)
      → length os.cache + length buf < 64
      → output back os buf ≡ record os { cache = os.cache ++ buf }
  unfolding output
  output-cached os buf h = ground arith

  output-direct :
      (os : Out S) (buf : List ℕ)
      → 64 ≤ length os.cache + length buf
      → os.written < 2 ^ 32
      → output back os buf ≡ record {
        backarg = back (feed back os.backarg os.cache) buf;
        written = ((os.written + length os.cache) % 2 ^ 32 + length buf) % 2 ^ 32;
        cache = [];
      }
  unfolding output
  output-direct os buf h w = let e = flush_lem os.backarg os.written os.cache w in ground (arith, e)

  -- `output` adds its bytes, whether they fit in the cache or not.
  pub output-Holds :
      {os : Out S} {bs : List ℕ} (buf : List ℕ)
      → Holds os bs
      → Holds (output back os buf) (bs ++ buf)
  output-Holds {os} {bs} buf h = elim (dec_lt (length os.cache + length buf) 64) [
    | yes p ↦ rw (output-cached os buf p) (record {
      ok = h.ok;
      fed =
          sym (feed-append os.backarg os.cache buf h.ok)
          ∙ ap (λ s. feed back s buf) h.fed
          ∙ feed-append start bs buf sink.start_ok;
      count = omega (arith, h.count, length-append os.cache buf, length-append bs buf);
      room = omega (arith, p, length-append os.cache buf);
      width = h.width;
    })
    | no p ↦ rw (output-direct os buf (omega arith) h.width) (record {
      ok = sink.keeps _ buf (feed-Ok os.backarg os.cache h.ok);
      fed =
          sym (feed-some back (feed back os.backarg os.cache) buf (omega (arith, h.room)))
          ∙ ap (λ s. feed back s buf) h.fed
          ∙ feed-append start bs buf sink.start_ok;
      count = omega (arith, h.count, h.width, length-append bs buf);
      room = omega arith;
      width = omega arith;
    })
  ]
