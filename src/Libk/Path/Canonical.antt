-- ===== src/Libk/Path/Canonical.antt =====
-- What a simplified path looks like, and that simplifying it again changes nothing.
use mathlib.Core.Path.{subst}
use camellia.Base.{
  ℕ, List, [], ◌∷◌, ◌++◌, Bool, true, false, none, some, done, ◌==◌, All, ◌≡◌, ◌≢◌, refl, sym, ap,
  ◌∙◌, arith, Bool-cases, inl, inr,
}
use camellia.Libk.Path.{here, parent, name, kind, simplify}
use camellia.Libk.Path.Spec.{onto_first, split, resolve, ends_dir, render, closing, canonical}
use camellia.Libk.Path.Refine.{simplify_refines, Kind-cases}
use camellia.Libk.Path.Segments.{Plain}

-- a component that names something: no slash, and not "", "." or ".."
pub record IsProper (n : List ℕ) : Type 0 where
  pub plain : Plain n
  pub names : kind n ≡ name

onto_first-Plain :
    (c : ℕ) (ps : List (List ℕ)) → (c == b'/') ≡ false → All Plain ps → All Plain (onto_first c ps)
onto_first-Plain c [] h k = ((h, tt), tt)
onto_first-Plain c (p ∷ ps) h k = ((h, k.0), k.1)

split-Plain : (s : List ℕ) → All Plain (split s)
unfolding split
split-Plain [] = (tt, tt)
split-Plain (c ∷ s) = elim (Bool-cases (c == b'/')) [
  | inl e ↦ rw (split, e) (tt, split-Plain s)
  | inr e ↦ rw (split, e) (onto_first-Plain c (split s) e (split-Plain s))
]

module _ (p : List ℕ) (ps names : List (List ℕ)) where
  pub resolve_here : kind p ≡ here → resolve (p ∷ ps) names ≡ resolve ps names
  unfolding resolve
  resolve_here e = rw (resolve, e)

  pub resolve_name : kind p ≡ name → resolve (p ∷ ps) names ≡ resolve ps (p ∷ names)
  unfolding resolve
  resolve_name e = rw (resolve, e)

  resolve_parent : (n : List ℕ) → kind p ≡ parent → resolve (p ∷ ps) (n ∷ names) ≡ resolve ps names
  unfolding resolve
  resolve_parent n e = rw (resolve, e)

  resolve_root : kind p ≡ parent → resolve (p ∷ ps) [] ≡ none
  unfolding resolve
  resolve_root e = rw (resolve, e)

resolve-IsProper :
    (ps names : List (List ℕ)) {ns : List (List ℕ)}
    → All Plain ps
    → All IsProper names
    → resolve ps names ≡ some ns
    → All IsProper ns
resolve-IsProper [] names {ns} h k e =
    let e' : names ≡ ns = unfold resolve in (cc e) in subst (All IsProper) e' k
resolve-IsProper (p ∷ ps) [] h k e = elim (Kind-cases (kind p)) [
  | inl i ↦ resolve-IsProper ps [] h.1 k (sym (resolve_here p ps [] i) ∙ e)
  | inr (inl i) ↦ cc (resolve_root p ps [] i)
  | inr (inr i) ↦
      resolve-IsProper ps (p ∷ []) h.1 (record { plain = h.0; names = i }, k)
        (sym (resolve_name p ps [] i) ∙ e)
]
resolve-IsProper (p ∷ ps) (n ∷ names) h k e = elim (Kind-cases (kind p)) [
  | inl i ↦ resolve-IsProper ps (n ∷ names) h.1 k (sym (resolve_here p ps (n ∷ names) i) ∙ e)
  | inr (inl i) ↦ resolve-IsProper ps names h.1 k.1 (sym (resolve_parent p ps names n i) ∙ e)
  | inr (inr i) ↦
      resolve-IsProper ps (p ∷ n ∷ names) h.1 (record { plain = h.0; names = i }, k)
        (sym (resolve_name p ps (n ∷ names) i) ∙ e)
]

module _ (p : List ℕ) (ps : List (List ℕ)) (d : Bool) where
  pub ends_dir_name : kind p ≡ name → ends_dir (p ∷ ps) d ≡ ends_dir ps false
  unfolding ends_dir
  ends_dir_name e = rw (ends_dir, e)

  pub ends_dir_other : kind p ≢ name → ends_dir (p ∷ ps) d ≡ ends_dir ps true
  unfolding ends_dir
  ends_dir_other e = ground (arith, e)

pub ends_dir-nil : (d : Bool) → ends_dir [] d ≡ d
unfolding ends_dir
ends_dir-nil d = refl

-- Where nothing is left of the components, the last one was not a name.
ends_dir-of_nil :
    (ps names : List (List ℕ)) (d : Bool)
    → (ps ≡ [] → names ≡ [] → d ≡ true)
    → resolve ps names ≡ some []
    → ends_dir ps d ≡ true
ends_dir-of_nil [] names d h e = ends_dir-nil d ∙ h refl (unfold resolve in (cc e))
ends_dir-of_nil (p ∷ ps) [] d h e = elim (Kind-cases (kind p)) [
  | inl i ↦
      ends_dir_other p ps d (λ j. cc)
      ∙ ends_dir-of_nil ps [] true (λ _ _. refl) (sym (resolve_here p ps [] i) ∙ e)
  | inr (inl i) ↦ cc (resolve_root p ps [] i)
  | inr (inr i) ↦
      ends_dir_name p ps d i
      ∙ ends_dir-of_nil ps (p ∷ []) false (λ _ j. cc) (sym (resolve_name p ps [] i) ∙ e)
]
ends_dir-of_nil (p ∷ ps) (n ∷ names) d h e = elim (Kind-cases (kind p)) [
  | inl i ↦
      ends_dir_other p ps d (λ j. cc)
      ∙ ends_dir-of_nil ps (n ∷ names) true (λ _ _. refl)
          (sym (resolve_here p ps (n ∷ names) i) ∙ e)
  | inr (inl i) ↦
      ends_dir_other p ps d (λ j. cc)
      ∙ ends_dir-of_nil ps names true (λ _ _. refl) (sym (resolve_parent p ps names n i) ∙ e)
  | inr (inr i) ↦
      ends_dir_name p ps d i
      ∙ ends_dir-of_nil ps (p ∷ n ∷ names) false (λ _ j. cc)
          (sym (resolve_name p ps (n ∷ names) i) ∙ e)
]

-- A canonical path: "/" and a proper name, for each of some names, and "/" at the end if there is
-- no name; a path of names may end in one too.
pub record IsCanonical (q : List ℕ) : Type 0 where
  pub names : List (List ℕ)
  pub dir : Bool
  pub proper : All IsProper names
  pub text : q ≡ render names ++ closing dir
  pub root : names ≡ [] → dir ≡ true

onto_first-ne-nil : (c : ℕ) (ps : List (List ℕ)) → onto_first c ps ≢ []
onto_first-ne-nil c [] h = cc
onto_first-ne-nil c (p ∷ ps) h = cc

pub split-ne-nil : (s : List ℕ) → split s ≢ []
unfolding split
split-ne-nil [] h = cc
split-ne-nil (c ∷ s) h = ground (arith, onto_first-ne-nil c (split s))

canonical_slash :
    (c : ℕ) (s q : List ℕ)
    → canonical (c ∷ s) ≡ some q
    → (names : List (List ℕ)) × (resolve (split s) [] ≡ some names)
      × (q ≡ render names ++ closing (ends_dir (split s) false))
unfolding canonical
canonical_slash c s q h = ground arith

canonical-IsCanonical : (p : List ℕ) {q : List ℕ} → canonical p ≡ some q → IsCanonical q
canonical-IsCanonical [] e = unfold canonical in (cc e)
canonical-IsCanonical (c ∷ s) {q} e =
    let (names, left, text) = canonical_slash c s q e in
    record {
      names = names;
      dir = ends_dir (split s) false;
      proper = resolve-IsProper (split s) [] (split-Plain s) tt left;
      text = text;
      root = λ nil.
          ends_dir-of_nil (split s) [] false (λ j. absurd (split-ne-nil s j)) (left ∙ ap some nil);
    }

-- Whatever `path_simplify` returns is canonical: no component of it is empty, "." or "..".
pub simplify-IsCanonical : (p : List ℕ) {q : List ℕ} → simplify p ≡ done (some q) → IsCanonical q
simplify-IsCanonical p e = canonical-IsCanonical p (cc (simplify_refines p))
