-- ===== src/Libk/Printf/Agree.antt =====
-- `__printf_internal` hands to `back` what Rendered.antt says that the format prints.
use camellia.Base.Options.{◌>>=◌}
use camellia.Base.{
  ℕ, zero, suc, ◌%◌, ◌^◌, ◌≡◌, refl, sym, ap, List, [], ◌∷◌, ◌++◌, Bool, true, false, Option, none,
  some, ◌==◌, if◌then◌else◌, length, append-nil, append_assoc, arith, text, ◌||◌,
}
use camellia.Libk.Printf.{Mods, Lenmod, Arg, word, str, Out, flush, output, turns}
use camellia.Libk.Printf.Directive.{
  convert, printf_loop, printf_internal, va_word, va_str, directive, string_or_null, unsigned_arg,
  signed_arg, Directive,
}
use camellia.Libk.Printf.Rendered.{field, rendered}
use camellia.Libk.Printf.Cache.{Sink, feed, Holds, flush_lem, output-Holds}
use camellia.Libk.Printf.Refine.{
  Adds, Adds-output, Adds-nothing, Adds-then, Adds-output_c, Adds-output_str, Adds-output_uint16,
  Adds-output_unsigned, Adds-output_signed,
}

module _ {S : Type 0} (back : S → List ℕ → S) (start : S) (sink : Sink back start) where
  -- the two results of a directive, when `ps` was printed before
  Agree : (ps : List ℕ) → Option (Out S × List Arg) → Option (List ℕ × List Arg) → Type 0
  Agree ps none none = Unit
  Agree ps (some (os, args)) (some (out, args')) =
      Holds back start sink os (ps ++ out) × (args ≡ args')
  Agree ps _ _ = ⊥

  -- the two results of a format
  Ends : (ps : List ℕ) → Option (Out S) → Option (List ℕ) → Type 0
  Ends ps none none = Unit
  Ends ps (some os) (some out) = Holds back start sink os (ps ++ out)
  Ends ps _ _ = ⊥

  Agree-if :
      (ps : List ℕ) (c : Bool) (a b : Option (Out S × List Arg)) (x y : Option (List ℕ × List Arg))
      → Agree ps a x
      → Agree ps b y
      → Agree ps (if c then a else b) (if c then x else y)
  Agree-if ps true a b x y p q = p
  Agree-if ps false a b x y p q = q

  module _ {os : Out S} {ps : List ℕ} (h : Holds back start sink os ps) where
    Agree-Adds :
        {f : Out S → Out S} {out : List ℕ}
        → Adds back start sink f out
        → (args : List Arg) → Agree ps (some (f os, args)) (some (out, args))
    unfolding Agree
    Agree-Adds p args = (p.on os ps h, refl)

    Agree-word :
        (args : List Arg) {f : ℕ → Out S → Out S} {g : ℕ → List ℕ}
        → ((n : ℕ) → Adds back start sink (f n) (g n))
        → Agree ps
            (va_word args >>= λ (n, args). some (f n os, args))
            (va_word args >>= λ (n, args). some (g n, args))
    unfolding Agree
    Agree-word [] p = tt
    Agree-word (word n ∷ args) p = Agree-Adds (p n) args
    Agree-word (str s ∷ args) p = tt

    Agree-str :
        (args : List Arg) {f : Option (List ℕ) → Out S → Out S} {g : Option (List ℕ) → List ℕ}
        → ((s : Option (List ℕ)) → Adds back start sink (f s) (g s))
        → Agree ps
            (va_str args >>= λ (s, args). some (f s os, args))
            (va_str args >>= λ (s, args). some (g s, args))
    unfolding Agree
    Agree-str [] p = tt
    Agree-str (word n ∷ args) p = tt
    Agree-str (str s ∷ args) p = Agree-Adds (p s) args

    convert-Agree :
        (m : Mods) (lm : Lenmod) (c : ℕ) (args : List Arg)
        → Agree ps (convert back os m lm c args) (field m lm c args)
    unfolding convert field turns
    convert-Agree m lm c args =
        Agree-if ps (c == 99) _ _ _ _
          (Agree-word args (λ n. Adds-output_c back start sink (n % 256) 1))
          (Agree-if ps (c == 115) _ _ _ _
            (Agree-str args (λ s. Adds-output_str back start sink m (string_or_null s)))
            (Agree-if ps (c == 112) _ _ _ _
              (Agree-word args (λ n.
                Adds-then back start sink (Adds-output back start sink (text "0x"))
                  (Adds-output_uint16 back start sink m (n % 2 ^ 64))))
              (Agree-if ps (c == 120 || c == 117 || c == 111) _ _ _ _
                (Agree-word args
                  (λ n. Adds-output_unsigned back start sink m c (unsigned_arg lm n)))
                (Agree-if ps (c == 100 || c == 105) _ _ _ _
                  (Agree-word args (λ n. Adds-output_signed back start sink m (signed_arg lm n)))
                  (Agree-if ps (c == 37) _ _ _ _
                    (Agree-Adds (Adds-output back start sink (text "%")) args)
                    (Agree-Adds (Adds-nothing back start sink) args))))))

  Ends-cons :
      (ps : List ℕ) (c : ℕ) (l : Option (Out S)) (r : Option (List ℕ))
      → Ends (ps ++ (c ∷ [])) l r
      → Ends ps l (r >>= λ out. some (c ∷ out))
  unfolding Ends
  Ends-cons ps c none none e = tt
  Ends-cons ps c none (some out) e = e
  Ends-cons ps c (some os) none e = e
  Ends-cons ps c (some os) (some out) e = rw (sym (append_assoc ps (c ∷ []) out)) e

  Ends-append :
      (ps out : List ℕ) (l : Option (Out S)) (r : Option (List ℕ))
      → Ends (ps ++ out) l r
      → Ends ps l (r >>= λ later. some (out ++ later))
  unfolding Ends
  Ends-append ps out none none e = tt
  Ends-append ps out none (some later) e = e
  Ends-append ps out (some os) none e = e
  Ends-append ps out (some os) (some later) e = rw (sym (append_assoc ps out later)) e

  Ends-bind :
      (ps : List ℕ) (l : Option (Out S × List Arg)) (r : Option (List ℕ × List Arg))
      (f : Out S → List Arg → Option (Out S)) (g : List Arg → Option (List ℕ))
      → Agree ps l r
      → ((os : Out S) (out : List ℕ) (args : List Arg)
          → Holds back start sink os (ps ++ out)
          → Ends (ps ++ out) (f os args) (g args))
      → Ends ps
          (l >>= λ (os, args). f os args)
          (r >>= λ (out, args). g args >>= λ later. some (out ++ later))
  unfolding Agree Ends
  Ends-bind ps none none f g a k = tt
  Ends-bind ps none (some r) f g a k = absurd a
  Ends-bind ps (some l) none f g a k = absurd a
  Ends-bind ps (some (os, args)) (some (out, args')) f g a k =
      rw (sym a.1) (Ends-append ps out (f os args) (g args) (k os out args a.0))

  Ends-none : (ps : List ℕ) → Ends ps none none
  unfolding Ends
  Ends-none ps = tt

  Ends-empty :
      (ps : List ℕ) (os : Out S) → Holds back start sink os ps → Ends ps (some os) (some [])
  unfolding Ends
  Ends-empty ps os h = rw append-nil h

  Ends-if :
      (ps : List ℕ) (c : Bool) (l l' : Option (Out S)) (r r' : Option (List ℕ))
      → Ends ps l r
      → Ends ps l' r'
      → Ends ps (elim c [ true ↦ l | false ↦ l' ]) (elim c [ true ↦ r | false ↦ r' ])
  Ends-if ps true l l' r r' p q = p
  Ends-if ps false l l' r r' p q = q

  directive-Ends :
      (fuel : ℕ) (os : Out S) (ps seg : List ℕ)
      → Holds back start sink os ps
      → ((os : Out S) (ps seg fmt : List ℕ) (args : List Arg)
          → Holds back start sink os ps
          → Ends (ps ++ seg) (printf_loop back fuel os seg fmt args) (rendered fuel fmt args))
      → (d : Option Directive)
      → Ends
          (ps ++ seg)
          (d >>= λ d.
            convert back (output back os seg) d.mods d.lm d.conversion d.args >>= λ (os, args).
            printf_loop back fuel os [] d.rest args)
          (d >>= λ d. field d.mods d.lm d.conversion d.args >>= λ (out, args).
            rendered fuel d.rest args >>= λ later. some (out ++ later))
  directive-Ends fuel os ps seg h k none = Ends-none _
  directive-Ends fuel os ps seg h k (some d) =
      Ends-bind (ps ++ seg) _ _ _ _
        (convert-Agree (output-Holds back start sink seg h) d.mods d.lm d.conversion d.args)
        (λ os out args h'.
          rw (sym (append-nil ((ps ++ seg) ++ out))) (k os ((ps ++ seg) ++ out) [] d.rest args h'))

  -- `printf_loop` and `rendered` agree, and so they need the same fuel.
  loop-Ends :
      (fuel : ℕ) (os : Out S) (ps seg fmt : List ℕ) (args : List Arg)
      → Holds back start sink os ps
      → Ends (ps ++ seg) (printf_loop back fuel os seg fmt args) (rendered fuel fmt args)
  unfolding printf_loop rendered
  loop-Ends zero os ps seg fmt args h = Ends-none _
  loop-Ends (suc fuel) os ps seg [] args h = Ends-none _
  loop-Ends (suc fuel) os ps seg (c ∷ fmt) args h =
      Ends-if (ps ++ seg) (c == 0) _ _ _ _
        (Ends-empty (ps ++ seg) _ (output-Holds back start sink seg h))
        (Ends-if (ps ++ seg) (c == 37) _ _ _ _
          (directive-Ends fuel os ps seg h (loop-Ends fuel) (directive fmt args))
          (Ends-cons (ps ++ seg) c _ _ (
            rw (append_assoc ps seg (c ∷ [])) (loop-Ends fuel os ps (seg ++ (c ∷ [])) fmt args h))))

  -- the state and the result, when `out` was printed
  abbrev pub printed : List ℕ → S × ℕ
  printed out = (feed back start out, length out % 2 ^ 32)

  flush-printed :
      (os : Out S) (out : List ℕ)
      → Holds back start sink os out
      → (let os' = flush back os in (os'.backarg, os'.written)) ≡ printed out
  flush-printed os out h =
      rw (flush_lem back start sink os.backarg os.written os.cache h.width, h.fed, h.count) refl

  Ends-printed :
      (l : Option (Out S)) (r : Option (List ℕ))
      → Ends [] l r
      → (l >>= λ os. let os = flush back os in some (os.backarg, os.written))
        ≡ (r >>= λ out. some (printed out))
  unfolding Ends
  Ends-printed none none e = refl
  Ends-printed none (some out) e = absurd e
  Ends-printed (some os) none e = absurd e
  Ends-printed (some os) (some out) e = ap {B = Option (S × ℕ)} some (flush-printed os out e)

  start-Holds : Holds back start sink (record { backarg = start; written = 0; cache = [] }) []
  start-Holds = record {
    ok = sink.start_ok;
    fed = refl;
    count = refl;
    room = omega arith;
    width = omega arith;
  }

  -- `printf_internal` gives its `back` what the format prints, and returns how many bytes that is modulo
  -- 2^32; it is undefined where the format is. `back` takes bytes in parts as at once, and is not called
  -- when there are none.
  pub printf_internal-rendered :
      (fmt : List ℕ) (args : List Arg)
      → printf_internal back start fmt args
        ≡ (rendered (length fmt) fmt args >>= λ out. some (printed out))
  unfolding printf_internal
  printf_internal-rendered fmt args =
      Ends-printed _ _ (loop-Ends (length fmt) _ [] [] fmt args start-Holds)
