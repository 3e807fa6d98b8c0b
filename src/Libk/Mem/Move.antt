-- ===== src/Libk/Mem/Move.antt =====
-- memmove of src/libk/mem.c copies also where source and destination overlap.
use mathlib.Core.Path.{subst}
use native.Mathlib.Decide.{dec_lt, dec_le}
use camellia.Base.{
  ℕ, zero, suc, ◌+◌, ◌-◌, ◌<◌, ◌≤◌, ◌≡◌, ◌≢◌, ◌⊎◌, inl, inr, refl, sym, ap, ◌∙◌, Bool, true, false,
  ◌||◌, ltb, leb, ◌==◌, if◌then◌else◌, arith, Bool-cases, ◌%◌,
}
use camellia.Libk.Mem.{
  Copy, write_byte, byte_step, word_step, align, words, bytes, memcpy, backward, memmove,
}

-- `mem'` has the `n` bytes of `mem` from `s` on at `d`, and is `mem` elsewhere.
pub record Moved (mem mem' : ℕ → ℕ) (d s n : ℕ) : Type 0 where
  pub copied : (a : ℕ) → d ≤ a → a < d + n → mem' a ≡ mem (s + (a - d))
  pub kept : (a : ℕ) → (a < d) ⊎ (d + n ≤ a) → mem' a ≡ mem a

-- a copy from the front does not write a byte before it is read
abbrev IsForward : (d s n : ℕ) → Type 0
IsForward d s n = (d ≤ s) ⊎ (s + n ≤ d)

Moved-byte : (mem : ℕ → ℕ) (d s : ℕ) → Moved mem (write_byte mem d (mem s)) d s 1
Moved-byte mem d s = record {
  copied = λ a from to.
      let here : (d == a) ≡ true = ground arith in
      let same : s ≡ s + (a - d) = omega arith in
      ap (λ (b : Bool). if b then mem s else mem a) here ∙ ap mem same;
  kept = λ a out.
      let other : (d == a) ≡ false = ground (arith, out) in
      ap (λ (b : Bool). if b then mem s else mem a) other;
}

write_lem :
    (mem : ℕ → ℕ) (p b : ℕ)
    → (write_byte mem p b p ≡ b) × ((a : ℕ) → p ≢ a → write_byte mem p b a ≡ mem a)
write_lem mem p b = (ground arith, λ a ne. ground (arith, ne))

Moved-none : (mem : ℕ → ℕ) (d s : ℕ) → Moved mem mem d s 0
Moved-none mem d s = record { copied = λ a from to. absurd (omega arith); kept = λ a out. refl }

module _ (mem mem1 mem2 : ℕ → ℕ) (d s m n : ℕ) (f : IsForward d s (m + n)) where
  -- what the rest of a copy reads has not been written
  unwritten : Moved mem mem1 d s m → (x : ℕ) → s + m ≤ x → x < s + m + n → mem1 x ≡ mem x
  unwritten first x from to = elim f [
    | inl le ↦ first.kept x (inr (omega arith))
    | inr le ↦ first.kept x (inl (omega arith))
  ]

  Moved-both : Moved mem mem1 d s m → Moved mem1 mem2 (d + m) (s + m) n → Moved mem mem2 d s (m + n)
  Moved-both first rest = record {
    copied = λ a from to. elim (dec_lt a (d + m)) [
      | yes early ↦ rest.kept a (inl early) ∙ first.copied a from early
      | no late ↦
          let same : s + m + (a - (d + m)) ≡ s + (a - d) = omega arith in
          rest.copied a (omega arith) (omega arith)
          ∙ unwritten first (s + m + (a - (d + m))) (omega arith) (omega arith)
          ∙ ap mem same
    ];
    kept = λ a out.
        let lo : (a < d + m) ⊎ (d + m + n ≤ a) = elim out [
          | inl l ↦ inl (omega arith)
          | inr h ↦ inr (omega arith)
        ] in
        let lo1 : (a < d) ⊎ (d + m ≤ a) = elim out [ inl l ↦ inl l | inr h ↦ inr (omega arith) ] in
        rest.kept a lo ∙ first.kept a lo1;
  }

-- `c'` is the state of the copy when `m` more bytes are copied.
pub record Advanced (c c' : Copy) : Type 0 where
  pub m : ℕ
  pub at_d : c'.d ≡ c.d + m
  pub at_s : c'.s ≡ c.s + m
  pub left : c'.n + m ≡ c.n
  pub moved : Moved c.mem c'.mem c.d c.s m

stays : (c : Copy) → Advanced c c
stays c = record {
  m = 0;
  at_d = omega arith;
  at_s = omega arith;
  left = omega arith;
  moved = Moved-none c.mem c.d c.s;
}

abbrev Forward : Copy → Type 0
Forward c = IsForward c.d c.s c.n

Forward-on : (c c' : Copy) → Advanced c c' → Forward c → Forward c'
Forward-on c c' a f =
    let d = a.at_d in
    let s = a.at_s in
    let l = a.left in
    elim f [ inl le ↦ inl (omega (arith, d, s)) | inr le ↦ inr (omega (arith, d, s, l)) ]

then_on : (c c1 c2 : Copy) → Forward c → Advanced c c1 → Advanced c1 c2 → Advanced c c2
then_on c c1 c2 f a b =
    let d = a.at_d in
    let s = a.at_s in
    let l = a.left in
    let d2 = b.at_d in
    let s2 = b.at_s in
    let l2 = b.left in
    let f2 : IsForward c.d c.s (a.m + b.m) = elim f [
      | inl le ↦ inl le
      | inr le ↦ inr (omega (arith, l, l2))
    ] in
    let there =
      subst (λ x. Moved c1.mem c2.mem x (c.s + a.m) b.m) d
        (subst (λ x. Moved c1.mem c2.mem c1.d x b.m) s b.moved) in
    record {
      m = a.m + b.m;
      at_d = omega (arith, d, d2);
      at_s = omega (arith, s, s2);
      left = omega (arith, l, l2);
      moved = Moved-both c.mem c1.mem c2.mem c.d c.s a.m b.m f2 a.moved there;
    }

byte_on : (c : Copy) → 0 < c.n → Advanced c (byte_step c)
unfolding byte_step
byte_on c pos = record {
  m = 1;
  at_d = refl;
  at_s = refl;
  left = omega (arith, pos);
  moved = Moved-byte c.mem c.d c.s;
}

word_on : (c : Copy) → 8 ≤ c.n → Advanced c (word_step c)
unfolding word_step
word_on c large = record {
  m = 8;
  at_d = refl;
  at_s = refl;
  left = omega (arith, large);
  moved = record {
    copied = λ a from to. ground (arith, from, to);
    kept = λ a out. ground (arith, out);
  };
}

align_on : (fuel : ℕ) (c : Copy) → Forward c → Advanced c (align fuel c)
unfolding align
align_on zero c f = stays c
align_on (suc fuel) c f = elim (Bool-cases (c.d % 8 == 0 || c.n == 0)) [
  | inl stop ↦ simp (align, stop) (stays c)
  | inr go ↦
      let pos : 0 < c.n = ground (arith, go) in
      let b = byte_on c pos in
      simp (align, go)
        (then_on c (byte_step c) (align fuel (byte_step c)) f b
          (align_on fuel (byte_step c) (Forward-on c (byte_step c) b f)))
]

words_on : (fuel : ℕ) (c : Copy) → Forward c → Advanced c (words fuel c)
unfolding words
words_on zero c f = stays c
words_on (suc fuel) c f = elim (Bool-cases (ltb c.n 8)) [
  | inl stop ↦ simp (words, stop) (stays c)
  | inr go ↦
      let large : 8 ≤ c.n = ground (arith, go) in
      let w = word_on c large in
      simp (words, go)
        (then_on c (word_step c) (words fuel (word_step c)) f w
          (words_on fuel (word_step c) (Forward-on c (word_step c) w f)))
]

bytes_on :
    (fuel : ℕ) (c : Copy)
    → c.n ≤ fuel
    → Forward c
    → Advanced c (bytes fuel c) × ((bytes fuel c).n ≡ 0)
unfolding bytes
bytes_on zero c le f = (stays c, omega arith)
bytes_on (suc fuel) c le f = elim (Bool-cases (c.n == 0)) [
  | inl stop ↦ let z : c.n ≡ 0 = ground (arith, stop) in simp (bytes, stop) (stays c, z)
  | inr go ↦
      let pos : 0 < c.n = ground (arith, go) in
      let b = byte_on c pos in
      let l = b.left in
      let r =
        bytes_on fuel (byte_step c) (unfold byte_step in omega (arith, le, pos))
          (Forward-on c (byte_step c) b f) in
      simp (bytes, go) (then_on c (byte_step c) (bytes fuel (byte_step c)) f b r.0, r.1)
]

memcpy_lem : (mem : ℕ → ℕ) (d s n : ℕ) → IsForward d s n → Moved mem (memcpy mem d s n) d s n
unfolding memcpy
memcpy_lem mem d s n f = elim (Bool-cases (d == s)) [
  | inl same ↦
      let e : d ≡ s = ground (arith, same) in
      simp (memcpy, same)
        (record {
          copied = λ a from to. (let back : a ≡ s + (a - d) = omega arith in ap mem back);
          kept = λ a out. refl;
        })
  | inr apart ↦
      let c : Copy = record { mem = mem; d = d; s = s; n = n } in
      let a = align_on n c f in
      let f1 = Forward-on c (align n c) a f in
      let w = words_on n (align n c) f1 in
      let f2 = Forward-on (align n c) (words n (align n c)) w f1 in
      let l1 = a.left in
      let l2 = w.left in
      let b = bytes_on n (words n (align n c)) (omega (arith, l1, l2)) f2 in
      let both = then_on c (align n c) (words n (align n c)) f a w in
      let all = then_on c (words n (align n c)) (bytes n (words n (align n c))) f both b.0 in
      let l = all.left in
      let z = b.1 in
      let count : all.m ≡ n = omega (arith, l, z) in
      simp (memcpy, apart)
        (subst (Moved mem (bytes n (words n (align n c))).mem d s) count all.moved)
]

backward_lem : (n : ℕ) (mem : ℕ → ℕ) (d s : ℕ) → s < d → Moved mem (backward mem d s n) d s n
unfolding backward
backward_lem zero mem d s lt = Moved-none mem d s
backward_lem (suc n) mem d s lt =
    let mem1 = write_byte mem (d + n) (mem (s + n)) in
    let rest = backward_lem n mem1 d s lt in
    let last = write_lem mem (d + n) (mem (s + n)) in
    record {
      copied = λ a from to. elim (dec_lt a (d + n)) [
        | yes early ↦
            rest.copied a from early ∙ last.1 (s + (a - d)) (omega (arith, from, early, lt))
        | no end ↦
            let same : d + n ≡ a = omega arith in
            let src : s + n ≡ s + (a - d) = omega arith in
            rest.kept a (inr (omega arith)) ∙ ap mem1 (sym same) ∙ last.0 ∙ ap mem src
      ];
      kept = λ a out.
          let o : (a < d) ⊎ (d + n ≤ a) = elim out [ inl l ↦ inl l | inr h ↦ inr (omega arith) ] in
          let ne : d + n ≢ a = λ e. elim out [
            | inl l ↦ absurd (omega (arith, e, l))
            | inr h ↦ absurd (omega (arith, e, h))
          ] in
          rest.kept a o ∙ last.1 a ne;
    }

-- memmove leaves the bytes of the source, as they were, at the destination, and all other bytes as
-- they were, whether the two overlap or not.
pub memmove-Moved : (mem : ℕ → ℕ) (d s n : ℕ) → Moved mem (memmove mem d s n) d s n
unfolding memmove
memmove-Moved mem d s n = elim (Bool-cases (leb d s || ltb (s + n) d)) [
  | inl front ↦
      let f : IsForward d s n = elim (dec_le d s) [
        | yes le ↦ inl le
        | no gt ↦ inr (ground (arith, front, gt))
      ] in
      simp (memmove, front) (memcpy_lem mem d s n f)
  | inr back ↦
      let lt : s < d = ground (arith, back) in simp (memmove, back) (backward_lem n mem d s lt)
]
