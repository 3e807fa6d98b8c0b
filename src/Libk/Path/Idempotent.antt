-- ===== src/Libk/Path/Idempotent.antt =====
-- Simplifying a canonical path gives it back.
use mathlib.Core.Option
use mathlib.Core.Path.{subst}
use mathlib.Core.List.{reverse, reverse-cons, reverse_aux, reverse-reverse, reverse_aux-eq}
use camellia.Base.{
  ℕ, List, [], ◌∷◌, ◌++◌, Bool, true, false, Option, some, done, ◌==◌, All, ◌≡◌, ◌≢◌, refl, sym, ap,
  ap₂, ◌∙◌, All-append, arith, append-nil, Bool-cases, inl, inr,
}
use camellia.Libk.Path.{kind, simplify}
use camellia.Libk.Path.Spec.{onto_first, split, resolve, ends_dir, render, closing, canonical}
use camellia.Libk.Path.Refine.{simplify_refines}
use camellia.Libk.Path.Segments.{Plain}
use camellia.Libk.Path.Canonical.{
  IsProper, IsCanonical, resolve_name, ends_dir_name, simplify-IsCanonical, split-ne-nil,
}

split-Plain : (n : List ℕ) → Plain n → split n ≡ n ∷ []
unfolding split
split-Plain [] h = refl
split-Plain (c ∷ n) h = rw (split, h.0, split-Plain n h.1)

onto_first-append :
    (c : ℕ) (ps qs : List (List ℕ)) → ps ≢ [] → onto_first c (ps ++ qs) ≡ onto_first c ps ++ qs
onto_first-append c [] qs h = absurd (h refl)
onto_first-append c (p ∷ ps) qs h = refl

split-append : (a b : List ℕ) → split (a ++ (b'/' ∷ b)) ≡ split a ++ split b
unfolding split
split-append [] b = refl
split-append (c ∷ a) b =
    ground (arith, split-append a b, onto_first-append c (split a) (split b) (split-ne-nil a))

split-render :
    (names : List (List ℕ)) → All IsProper names → split (render names) ≡ [] ∷ reverse names
unfolding render
split-render [] h = unfold split in refl
split-render (n ∷ names) h =
    split-append (render names) n
    ∙ ap₂ ◌++◌ (split-render names h.1) (split-Plain n h.0.plain)
    ∙ ap (λ t. [] ∷ t) (sym (reverse-cons n names))

resolve_names :
    (ns names : List (List ℕ)) (ps : List (List ℕ))
    → All IsProper ns
    → resolve (ns ++ ps) names ≡ resolve ps (reverse_aux ns names)
resolve_names [] names ps h = refl
resolve_names (n ∷ ns) names ps h =
    resolve_name n (ns ++ ps) names h.0.names ∙ resolve_names ns (n ∷ names) ps h.1

ends_dir_names :
    (ns : List (List ℕ)) (ps : List (List ℕ))
    → All IsProper ns
    → ends_dir (ns ++ ps) false ≡ ends_dir ps false
ends_dir_names [] ps h = refl
ends_dir_names (n ∷ ns) ps h = ends_dir_name n (ns ++ ps) false h.0.names ∙ ends_dir_names ns ps h.1

All-reverse : (ns : List (List ℕ)) → All IsProper ns → All IsProper (reverse ns)
All-reverse [] h = tt
All-reverse (n ∷ ns) h =
    subst (All IsProper) (sym (reverse-cons n ns))
      (All-append IsProper (reverse ns) (n ∷ []) (All-reverse ns h.1) (h.0, tt))

-- the part behind a closing slash
abbrev closing_parts : Bool → List (List ℕ)
closing_parts true = [] ∷ []
closing_parts false = []

abbrev from_parts : List (List ℕ) → Option (List ℕ)
from_parts ps = Option.map (λ names. render names ++ closing (ends_dir ps false)) (resolve ps [])

canonical_of_split :
    (q : List ℕ) (ps : List (List ℕ)) → split q ≡ [] ∷ ps → ps ≢ [] → canonical q ≡ from_parts ps
unfolding split canonical
canonical_of_split [] ps e h = absurd (h (cc e))
canonical_of_split (c ∷ s) ps e h = elim (Bool-cases (c == b'/')) [
  | inl slash ↦ let same : split s ≡ ps = ground (arith, e, slash) in rw (slash, same)
  | inr other ↦ absurd (onto_first-first c (split s) (ground (arith, e, other)))
]
  where
    onto_first-first : (c : ℕ) (qs : List (List ℕ)) → onto_first c qs ≢ [] ∷ ps
    onto_first-first c [] e = cc
    onto_first-first c (q ∷ qs) e = cc

split-canonical :
    (names : List (List ℕ)) (dir : Bool)
    → All IsProper names
    → split (render names ++ closing dir) ≡ [] ∷ (reverse names ++ closing_parts dir)
split-canonical names true h =
    split-append (render names) [] ∙ ap₂ ◌++◌ (split-render names h) (unfold split in refl)
split-canonical names false h = rw (append-nil, append-nil) (split-render names h)

resolve_closing :
    (names : List (List ℕ)) (dir : Bool) → resolve (closing_parts dir) names ≡ some names
unfolding resolve kind
resolve_closing names true = refl
resolve_closing names false = refl

ends_dir_closing : (dir : Bool) → ends_dir (closing_parts dir) false ≡ dir
unfolding ends_dir kind
ends_dir_closing true = refl
ends_dir_closing false = refl

resolve_parts :
    (names : List (List ℕ)) (dir : Bool)
    → All IsProper names
    → resolve (reverse names ++ closing_parts dir) [] ≡ some names
resolve_parts names dir h =
    resolve_names (reverse names) [] (closing_parts dir) (All-reverse names h)
    ∙ rw (reverse_aux-eq, append-nil, reverse-reverse) (resolve_closing names dir)

append-cons-ne-nil : (ps : List (List ℕ)) (p : List ℕ) → ps ++ (p ∷ []) ≢ []
append-cons-ne-nil [] p e = cc
append-cons-ne-nil (q ∷ ps) p e = cc

parts-ne-nil :
    (names : List (List ℕ)) (dir : Bool)
    → (names ≡ [] → dir ≡ true)
    → reverse names ++ closing_parts dir ≢ []
parts-ne-nil names true h e = append-cons-ne-nil (reverse names) [] e
parts-ne-nil [] false h e = cc (h refl)
parts-ne-nil (n ∷ names) false h e =
    append-cons-ne-nil (reverse names) n (sym (append-nil _ ∙ reverse-cons n names) ∙ e)

canonical_fixed : {q : List ℕ} → IsCanonical q → canonical q ≡ some q
canonical_fixed {q} k =
    canonical_of_split q (reverse names ++ closing_parts dir)
      (ap split k.text ∙ split-canonical names dir k.proper) (parts-ne-nil names dir k.root)
    ∙ rw (resolve_parts names dir k.proper) (
        rw
          (
            ends_dir_names (reverse names) (closing_parts dir) (All-reverse names k.proper),
            ends_dir_closing,
          )
          (ap some (sym k.text)))
  where
    open k use {names, dir}

-- Simplifying a simplified path succeeds and gives it back.
simplify-simplify :
    (p : List ℕ) {q : List ℕ} → simplify p ≡ done (some q) → simplify q ≡ done (some q)
simplify-simplify p {q} e =
    simplify_refines q ∙ ap done (canonical_fixed (simplify-IsCanonical p e))
