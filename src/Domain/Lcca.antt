-- ===== src/Domain/Lcca.antt =====
-- `findLCCA` finds the innermost state that qualifies and holds every state of the list, and it
-- finds none only for a list that holds the root.
use statesman.Base.{
  Option, ◌<◌, ◌≡◌, refl, true, false, none, some, List, [], ◌∷◌, ◌++◌, ◌==◌, mem, length, arith,
  ◌⊎◌, inl, inr, ◌↔◌, All, all, find_passes, find_split, find-any, any_of_mem, &&_iff, ||_iff,
  Bool-cases, Option-cases, mem-append, ==_iff,
}
use statesman.Definition.{StateKind, Addr, Heap, node, proper_ancestors, is_descendant}
use statesman.Definition.Ancestors.{
  IsTree, Below, is_descendant-mem, mem-proper_ancestors, Below-mem, proper_ancestors_split,
  root-mem,
}
use statesman.Domain.{is_compound, is_nil, qualifies, is_common, find_lcca}

-- Every state of the list lies below `a`.
abbrev pub AllBelow : Heap → List Addr → Addr → Type 0
AllBelow h ss a = All (λ s. Below h s a) ss

-- A compound state, or the root.
abbrev pub Qualified : Heap → Addr → Type 0
Qualified h a = ((node h a).kind ≡ StateKind.compound) ⊎ ((node h a).parent ≡ none)

is_compound_iff : (k : StateKind) → (is_compound k ≡ true) ↔ (k ≡ StateKind.compound)
is_compound_iff StateKind.compound = (λ e. refl, λ e. refl)
is_compound_iff StateKind.atomic = (λ e. cc, λ e. cc)
is_compound_iff StateKind.parallel = (λ e. cc, λ e. cc)
is_compound_iff StateKind.final = (λ e. cc, λ e. cc)
is_compound_iff StateKind.history = (λ e. cc, λ e. cc)

is_nil_iff : (o : Option Addr) → (is_nil o ≡ true) ↔ (o ≡ none)
is_nil_iff none = (λ e. refl, λ e. refl)
is_nil_iff (some p) = (λ e. cc, λ e. cc)

qualifies_iff : (h : Heap) (a : Addr) → (qualifies h a ≡ true) ↔ Qualified h a
unfolding qualifies
qualifies_iff h a = ground (
  arith,
  ||_iff (is_compound (node h a).kind) (is_nil (node h a).parent),
  is_compound_iff (node h a).kind,
  is_nil_iff (node h a).parent,
)

-- What a least common compound ancestor is, whatever finds it.
pub record IsLcca (h : Heap) (ss : List Addr) (a : Addr) : Type 0 where
  pub qualified : Qualified h a
  pub above : AllBelow h ss a
  pub innermost : (b : Addr) → Qualified h b → AllBelow h ss b → (b ≡ a) ⊎ Below h a b

module _ (h : Heap) (tree : IsTree h) where
  -- `IsDescendant` decides the relation.
  pub is_descendant_iff :
      (n a : Addr) → n < length h → (is_descendant h n (some a) ≡ true) ↔ Below h n a
  is_descendant_iff n a l =
      rw (is_descendant-mem h n a)
        (λ m. (mem-proper_ancestors h tree a n l m).0, λ b. Below-mem h tree b l)

  all_descendants :
      (a : Addr) (ss : List Addr)
      → All (λ s. s < length h) ss
      → (all (λ u. is_descendant h u (some a)) ss ≡ true) ↔ AllBelow h ss a
  all_descendants a [] l = (λ e. tt, λ e. refl)
  all_descendants a (s ∷ ss) l =
      let here = is_descendant_iff s a l.0 in
      let rest = all_descendants a ss l.1 in
      (
        λ e. let (x, y) = (&&_iff _ _).0 e in (here.0 x, rest.0 y),
        λ e. (&&_iff _ _).1 (here.1 e.0, rest.1 e.1),
      )

  is_common_iff :
      (a : Addr) (ss : List Addr)
      → All (λ s. s < length h) ss
      → (is_common h ss a ≡ true) ↔ ((qualifies h a ≡ true) × AllBelow h ss a)
  unfolding is_common
  is_common_iff a ss l =
      let below = all_descendants a ss l in
      (
        λ e. let (q, d) = (&&_iff _ _).0 e in (q, below.0 d),
        λ (q, d). (&&_iff _ _).1 (q, below.1 d),
      )

  -- An ancestor in a chain that has `a` at the end of `before`.
  after_before :
      (s a b : Addr) (before after : List Addr)
      → s < length h
      → proper_ancestors h s ≡ before ++ (a ∷ after)
      → a < length h
      → mem b before ≡ false
      → Below h s b
      → (b ≡ a) ⊎ Below h a b
  after_before s a b before after l split la absent below =
      by_place ((||_iff _ _).0 (rw mem-append at (rw split at (Below-mem h tree below l))))
    where
      by_place : (mem b before ≡ true) ⊎ (mem b (a ∷ after) ≡ true) → (b ≡ a) ⊎ Below h a b
      by_place (inl m) = cc
      by_place (inr m) = elim ((||_iff _ _).0 m) [
        | inl here ↦ inl ((==_iff b a).0 here)
        | inr there ↦
            let chain = proper_ancestors_split h tree a after s l before split in
            inr (mem-proper_ancestors h tree b a la (rw chain at there)).0
      ]

  -- In a chart that is a tree, what `findLCCA` returns for states of it is a compound state or the
  -- root, is a proper ancestor of all the states, and no other such state is further in.
  pub find_lcca-IsLcca :
      (s : Addr) (ss : List Addr) (a : Addr)
      → All (λ u. u < length h) (s ∷ ss)
      → find_lcca h (s ∷ ss) ≡ some a
      → IsLcca h (s ∷ ss) a
  unfolding find_lcca
  find_lcca-IsLcca s ss a l e =
      let (before, after, split, none_before) =
        find_split (is_common h ss) (proper_ancestors h s) e in
      let (q, d) =
        (is_common_iff a ss l.1).0 (find_passes (is_common h ss) (proper_ancestors h s) e) in
      let member : mem a (proper_ancestors h s) ≡ true = rw (split, mem-append) (ground arith) in
      let (above, lt) = mem-proper_ancestors h tree a s l.0 member in
      record {
        qualified = (qualifies_iff h a).0 q;
        above = (above, d);
        innermost = λ b qb bs.
            after_before s a b before after l.0 split (omega (arith, l.0))
              (elim (Bool-cases (mem b before)) [
                | inl m ↦
                    let common = (is_common_iff b ss l.1).1 ((qualifies_iff h b).1 qb, bs.1) in
                    cc (any_of_mem (is_common h ss) b before m common)
                | inr m ↦ m
              ])
              bs.0;
      }

  root_parent : 0 < length h → (node h 0).parent ≡ none
  root_parent l = elim (Option-cases (node h 0).parent) [
    | inl e ↦ e
    | inr (p, e) ↦ absurd (omega (arith, tree.parent_lt 0 p l e))
  ]

  root-qualifies : 0 < length h → qualifies h 0 ≡ true
  unfolding qualifies
  root-qualifies l = rw (root_parent l) (ground arith)

  -- Nothing lies above the root.
  pub root-not-Below : (b : Addr) → 0 < length h → ¬ Below h 0 b
  root-not-Below b l below =
      absurd (omega (arith, mem-proper_ancestors h tree b 0 l (Below-mem h tree below l)))

  AllBelow-root : (ss : List Addr) → All (λ s. s < length h) ss → mem 0 ss ≡ false → AllBelow h ss 0
  AllBelow-root [] l absent = tt
  AllBelow-root (s ∷ ss) l absent = (
    (mem-proper_ancestors h tree 0 s l.0 (root-mem h tree s l.0 (ground arith))).0,
    AllBelow-root ss l.1 (ground arith),
  )

  not_below_root : (ss : List Addr) (b : Addr) → 0 < length h → AllBelow h ss b → mem 0 ss ≡ false
  not_below_root [] b l below = refl
  not_below_root (s ∷ ss) b l below = elim (Bool-cases (0 == s)) [
    | inl e ↦ absurd (root-not-Below b l (rw (← (==_iff 0 s).0 e) at below.0))
    | inr e ↦ rw e (not_below_root ss b l below.1)
  ]

  -- In a chart that is a tree, `findLCCA` finds nothing for a non-empty list of states exactly if
  -- the list holds the root.
  pub find_lcca-eq-none :
      (s : Addr) (ss : List Addr)
      → All (λ u. u < length h) (s ∷ ss)
      → (find_lcca h (s ∷ ss) ≡ none) ↔ (mem 0 (s ∷ ss) ≡ true)
  unfolding find_lcca
  find_lcca-eq-none s ss l = (holds_root, finds_none)
    where
      pos : 0 < length h
      pos = omega (arith, l.0)

      holds_root : find_lcca h (s ∷ ss) ≡ none → mem 0 (s ∷ ss) ≡ true
      holds_root e = elim (Bool-cases (mem 0 (s ∷ ss))) [
        | inl m ↦ m
        | inr m ↦
            let below = AllBelow-root (s ∷ ss) l m in
            let common = (is_common_iff 0 ss l.1).1 (root-qualifies pos, below.1) in
            let found =
              any_of_mem (is_common h ss) 0 (proper_ancestors h s) (Below-mem h tree below.0 l.0)
                common in
            cc (found, find-any (is_common h ss) (proper_ancestors h s) e)
      ]

      finds_none : mem 0 (s ∷ ss) ≡ true → find_lcca h (s ∷ ss) ≡ none
      finds_none m = elim (Option-cases (find_lcca h (s ∷ ss))) [
        | inl e ↦ e
        | inr (a, e) ↦ cc (not_below_root (s ∷ ss) a pos (find_lcca-IsLcca s ss a l e).above)
      ]
