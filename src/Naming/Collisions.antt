-- ===== src/Naming/Collisions.antt =====
-- `CheckCollisions` finds nothing exactly where nothing is to be found.
use Prim.Native.String.{String}
use statesman.Base.{
  ◌≡◌, refl, sym, ap, ◌∙◌, true, false, Option, none, some, List, [], ◌∷◌, All, str_eq, eq_iff,
  Bool-cases, ◌⊎◌, ◌↔◌, inl, inr,
}
use mathlib.Core.Option.{some-injective}
use statesman.Definition.{find_id}
use statesman.Naming.{
  Unicode, NameError, Named, named, refused, go_ident, collides, or_first, check_from,
  check_collisions,
}

Named-cases : (r : Named) → ((n : String) × (r ≡ named n)) ⊎ ((e : NameError) × (r ≡ refused e))
Named-cases (named n) = inl (n, refl)
Named-cases (refused e) = inr (e, refl)

module _ (u : Unicode) where
  -- Of the names those with the identifier `n` are `p`.
  abbrev OnlyAs : String → String → List String → Type 0
  OnlyAs n p names = All (λ b. go_ident u b ≡ named n → b ≡ p) names

  -- Each name has an identifier, and no later name that differs from it has the same one.
  abbrev pub IsCollisionFree : List String → Type 0
  IsCollisionFree [] = Unit
  IsCollisionFree (a ∷ names) =
      ((n : String) × (go_ident u a ≡ named n) × OnlyAs n a names) × IsCollisionFree names

  or_first-none : (o p : Option NameError) → or_first u o p ≡ none → (o ≡ none) × (p ≡ none)
  or_first-none none p e = (refl, e)
  or_first-none (some x) p e = cc

  check-named :
      (seen : List (String × String)) (jn : String) (jns : List String) (n : String)
      → go_ident u jn ≡ named n
      → check_from u seen (jn ∷ jns)
        ≡ or_first u (collides u (find_id n seen) jn n) (check_from u ((n, jn) ∷ seen) jns)
  unfolding check_from
  check-named seen jn jns n e = rw (e, check_from)

  check-refused :
      (seen : List (String × String)) (jn : String) (jns : List String) (x : NameError)
      → go_ident u jn ≡ refused x
      → check_from u seen (jn ∷ jns) ≡ some x
  unfolding check_from
  check-refused seen jn jns x e = rw (e, check_from)

  -- A name that passes: its identifier, and the rest with it.
  passes :
      (seen : List (String × String)) (jn : String) (jns : List String)
      → check_from u seen (jn ∷ jns) ≡ none
      → (n : String) × (go_ident u jn ≡ named n)
        × (collides u (find_id n seen) jn n ≡ none)
        × (check_from u ((n, jn) ∷ seen) jns ≡ none)
  passes seen jn jns e = elim (Named-cases (go_ident u jn)) [
    | inl (n, f) ↦
        let (one, two) =
          or_first-none (collides u (find_id n seen) jn n) (check_from u ((n, jn) ∷ seen) jns)
            (sym (check-named seen jn jns n f) ∙ e) in
        (n, f, one, two)
    | inr (x, f) ↦ cc (check-refused seen jn jns x f, e)
  ]

  same_name :
      (jn n : String) (o : Option String) (p : String)
      → o ≡ some p
      → collides u o jn n ≡ none
      → jn ≡ p
  same_name jn n none p f e = cc
  same_name jn n (some q) p f e = elim (Bool-cases (str_eq q jn)) [
    | inl same ↦ (let one : q ≡ p = cc in sym ((eq_iff q jn).0 same) ∙ one)
    | inr other ↦ cc (rw other at e)
  ]

  find_id-here : (n p : String) (seen : List (String × String)) → find_id n ((n, p) ∷ seen) ≡ some p
  unfolding find_id
  find_id-here n p seen = (let hit : str_eq n n ≡ true = (eq_iff n n).1 refl in rw hit)

  find_id-other :
      (n m p : String) (seen : List (String × String))
      → str_eq m n ≡ false
      → find_id n ((m, p) ∷ seen) ≡ find_id n seen
  unfolding find_id
  find_id-other n m p seen e = rw e

  seen-OnlyAs :
      (n p : String) (seen : List (String × String)) (names : List String)
      → find_id n seen ≡ some p
      → check_from u seen names ≡ none
      → OnlyAs n p names
  seen-OnlyAs n p seen [] f e = tt
  seen-OnlyAs n p seen (jn ∷ jns) f e =
      let (m, g, apart, rest) = passes seen jn jns e in
      elim (Bool-cases (str_eq m n)) [
        | inl same ↦
            let is_n : m ≡ n = (eq_iff m n).0 same in
            let is_p : jn ≡ p = same_name jn m (find_id m seen) p (rw is_n f) apart in
            (
              λ h. is_p,
              seen-OnlyAs n p ((m, jn) ∷ seen) jns
                  (rw is_n (find_id-here n jn seen ∙ ap (λ x. some x) is_p)) rest,
            )
        | inr other ↦ (
          λ h. absurd (differ m n jn other g h),
          seen-OnlyAs n p ((m, jn) ∷ seen) jns (find_id-other n m jn seen other ∙ f) rest,
        )
      ]
    where
      differ :
          (m n jn : String)
          → str_eq m n ≡ false
          → go_ident u jn ≡ named m
          → go_ident u jn ≡ named n
          → ⊥
      differ m n jn other g h = (let same : m ≡ n = cc in cc ((eq_iff m n).1 same, other))

  sound :
      (seen : List (String × String)) (names : List String)
      → check_from u seen names ≡ none
      → IsCollisionFree names
  sound seen [] e = tt
  sound seen (jn ∷ jns) e =
      let (n, f, apart, rest) = passes seen jn jns e in
      (
        (n, f, seen-OnlyAs n jn ((n, jn) ∷ seen) jns (find_id-here n jn seen) rest),
        sound ((n, jn) ∷ seen) jns rest,
      )

  no_collision :
      (jn n : String) (o : Option String)
      → ((p : String) → o ≡ some p → jn ≡ p)
      → collides u o jn n ≡ none
  no_collision jn n none f = refl
  no_collision jn n (some p) f =
      let hit : str_eq p jn ≡ true = (eq_iff p jn).1 (sym (f p refl)) in rw hit

  complete :
      (seen : List (String × String)) (names : List String)
      → ((n p : String) → find_id n seen ≡ some p → OnlyAs n p names)
      → IsCollisionFree names
      → check_from u seen names ≡ none
  complete seen [] before free = unfold check_from in refl
  complete seen (jn ∷ jns) before ((n, f, only), free) =
      check-named seen jn jns n f
      ∙ rw (no_collision jn n (find_id n seen) (λ p g. (before n p g).0 f)) (
          complete ((n, jn) ∷ seen) jns
            (λ m p g. elim (Bool-cases (str_eq n m)) [
              | inl same ↦
                  let is_m : n ≡ m = (eq_iff n m).0 same in
                  let is_p : jn ≡ p = named_here m p is_m g in rw (← is_m, ← is_p) only
              | inr other ↦ (before m p (sym (find_id-other m n jn seen other) ∙ g)).1
            ])
            free)
    where
      named_here : (m p : String) → n ≡ m → find_id m ((n, jn) ∷ seen) ≡ some p → jn ≡ p
      named_here m p is g = some-injective _ _ (sym (find_id-here n jn seen) ∙ (rw (← is) at g))

  -- `CheckCollisions` finds nothing if and only if every name has an identifier and no two names
  -- that differ have the same one.
  pub check_collisions_iff :
      (names : List String) → (check_collisions u names ≡ none) ↔ IsCollisionFree names
  unfolding check_collisions
  check_collisions_iff names = (sound [] names, complete [] names (λ n p e. cc (nothing n, e)))
    where
      nothing : (n : String) → find_id {V = String} n [] ≡ none
      nothing n = unfold find_id in refl
