-- ===== src/Legality/Regions.antt =====
-- The regions of a parallel state: after `add_regions` each of them is full.
use statesman.Base.{
  ◌≡◌, ◌≢◌, refl, ◌∙◌, ℕ, zero, suc, ◌<◌, true, false, Bool, some, List, [], ◌∷◌, inl, inr, mem,
  length, arith, any, Bool-cases, ==_iff, ◌==◌, >>=-eq-some, if◌then◌else◌,
}
use statesman.Definition.{Addr, Heap, node}
use statesman.Definition.Ancestors.{IsTree, Below}
use statesman.Entry.{EntrySet, Descend, has_descendant_in_set, add_regions}
use statesman.Legality.{Within, IsChild, IsFull}
use statesman.Legality.Subtrees.{Below-of_child, siblings_apart}
use statesman.Legality.Sets.{IsClear, Agree, IsSettled, IsFull-Agree, IsSettled-Agree}

-- The sets agree outside the subtree of `a`, and outside of what lies strictly below it.
abbrev pub SameOutside : Heap → Addr → List Addr → List Addr → Type 0
SameOutside h a e e' = (n : Addr) → (Within h a n → ⊥) → mem n e' ≡ mem n e

abbrev pub SameAbove : Heap → Addr → List Addr → List Addr → Type 0
SameAbove h a e e' = (n : Addr) → (Below h n a → ⊥) → mem n e' ≡ mem n e

-- What the recursion promises: an empty subtree becomes full, and nothing else changes.
abbrev pub Descends : Heap → Descend → Type 0
Descends h descend =
    (s : Addr) (e e' : EntrySet)
    → s < length h
    → IsClear h s e.to_enter
    → descend s e ≡ some e'
    → IsFull h s e'.to_enter × SameOutside h s e.to_enter e'.to_enter

any-false :
    (p : ℕ → Bool) (xs : List ℕ) → ((x : ℕ) → mem x xs ≡ true → p x ≡ false) → any p xs ≡ false
any-false p [] f = refl
any-false p (x ∷ xs) f = rw (f x (ground arith)) (any-false p xs (λ y m. f y (ground arith)))

module _ (h : Heap) (tree : IsTree h) where
  has_descendant-IsClear :
      (fuel : ℕ) (c : Addr) (e : List Addr)
      → c < length h
      → IsClear h c e
      → has_descendant_in_set h fuel c e ≡ false
  unfolding has_descendant_in_set
  has_descendant-IsClear zero c e l clear = clear c (inl refl)
  has_descendant-IsClear (suc fuel) c e l clear = rw (clear c (inl refl)) (
      any-false (λ d. has_descendant_in_set h fuel d e) (node h c).children
        (λ d m.
          has_descendant-IsClear fuel d e (tree.child_lt c d l m)
            (λ n w. clear n (inr (Below-of_child h (tree.child_parent c d l m) w)))))

  has_descendant-mem :
      (fuel : ℕ) (c : Addr) (e : List Addr)
      → mem c e ≡ true
      → has_descendant_in_set h fuel c e ≡ true
  unfolding has_descendant_in_set
  has_descendant-mem zero c e m = m
  has_descendant-mem (suc fuel) c e m = rw m refl

  -- A region is entered unless it is full.
  module _ (p : Addr) (p_in : p < length h) where
    region-step :
        (descend : Descend)
        → Descends h descend
        → (c : Addr) (e e' : EntrySet) → IsChild h p c
        → IsSettled h c e.to_enter
        → (if has_descendant_in_set h (length h) c e.to_enter then some e else descend c e)
          ≡ some e'
        → IsFull h c e'.to_enter × SameOutside h c e.to_enter e'.to_enter
    region-step descend spec c e e' m (inl full) eq =
        let same : e ≡ e' = cc (rw (has_descendant-mem (length h) c e.to_enter full.here) at eq) in
        rw (← same) (full, λ n w. refl)
    region-step descend spec c e e' m (inr clear) eq =
        let c_in = tree.child_lt p c p_in m in
        spec c e e' c_in clear
          (rw (has_descendant-IsClear (length h) c e.to_enter c_in clear) at eq)

    -- A step for the region `c` leaves the other regions as they were.
    other_region :
        (c d : Addr) (e e' : List Addr)
        → IsChild h p c
        → IsChild h p d
        → (d == c) ≡ false
        → SameOutside h c e e'
        → Agree h d e e'
    other_region c d e e' m m' other same = λ n w. same n (λ v.
        siblings_apart h tree (tree.child_parent p d p_in m') (tree.child_parent p c p_in m) ne w v)
      where
        ne : d ≢ c
        ne f = ground arith

    IsSettled-after :
        (c d : Addr) (e e' : List Addr)
        → IsChild h p c
        → IsChild h p d
        → IsFull h c e'
        → SameOutside h c e e'
        → IsSettled h d e
        → IsSettled h d e'
    IsSettled-after c d e e' m m' full same settled = elim (Bool-cases (d == c)) [
      | inl one ↦ inl (rw ((==_iff d c).0 one) full)
      | inr other ↦
          IsSettled-Agree h tree d e e' (tree.child_lt p d p_in m')
            (other_region c d e e' m m' other same) settled
    ]

    IsFull-after :
        (c d : Addr) (e e' : List Addr)
        → IsChild h p c
        → IsChild h p d
        → IsFull h c e'
        → SameOutside h c e e'
        → IsFull h d e
        → IsFull h d e'
    IsFull-after c d e e' m m' full same before = elim (Bool-cases (d == c)) [
      | inl one ↦ rw ((==_iff d c).0 one) full
      | inr other ↦
          IsFull-Agree h tree d e e' (tree.child_lt p d p_in m')
            (other_region c d e e' m m' other same) before
    ]

    -- What a pass over some of the regions leaves.
    pub record Served (cs : List Addr) (e e' : List Addr) : Type 0 where
      pub full : (c : Addr) → mem c cs ≡ true → IsFull h c e'
      pub settled : (c : Addr) → IsChild h p c → IsSettled h c e → IsSettled h c e'
      pub kept : (c : Addr) → IsChild h p c → IsFull h c e → IsFull h c e'
      pub same : SameAbove h p e e'

    Served-cons :
        (c : Addr) (cs : List Addr) (e e₁ e' : List Addr)
        → IsChild h p c
        → IsFull h c e₁
        → SameOutside h c e e₁
        → Served cs e₁ e'
        → Served (c ∷ cs) e e'
    Served-cons c cs e e₁ e' m full same rest = record {
      full = λ d i. elim (Bool-cases (d == c)) [
        | inl one ↦ rw ((==_iff d c).0 one) (rest.kept c m full)
        | inr other ↦ rest.full d (ground arith)
      ];
      settled = λ d i s. rest.settled d i (IsSettled-after c d e e₁ m i full same s);
      kept = λ d i f. rest.kept d i (IsFull-after c d e e₁ m i full same f);
      same = λ n f.
          rest.same n f ∙ same n (λ w. f (Below-of_child h (tree.child_parent p c p_in m) w));
    }

    pub regions-Served :
        (descend : Descend)
        → Descends h descend
        → (cs : List Addr) (e e' : EntrySet) → ((c : Addr) → mem c cs ≡ true → IsChild h p c)
        → ((c : Addr) → IsChild h p c → IsSettled h c e.to_enter)
        → add_regions h descend cs e ≡ some e'
        → Served cs e.to_enter e'.to_enter
    unfolding add_regions
    regions-Served descend spec [] e e' children settled eq =
        let one : e ≡ e' = cc in
        rw (← one)
          (record { full = λ c m. cc; settled = λ c m s. s; kept = λ c m f. f; same = λ n f. refl })
    regions-Served descend spec (c ∷ cs) e e' children settled eq =
        let (e₁, first, later) = >>=-eq-some _ _ eq in
        let m = children c (ground arith) in
        let (full, same) = region-step descend spec c e e₁ m (settled c m) first in
        let onward : (d : Addr) → IsChild h p d → IsSettled h d e₁.to_enter =
          λ d m'. IsSettled-after c d e.to_enter e₁.to_enter m m' full same (settled d m') in
        let rest =
          regions-Served descend spec cs e₁ e' (λ d m'. children d (ground arith)) onward later in
        Served-cons c cs e.to_enter e₁.to_enter e'.to_enter m full same rest
