-- ===== src/Schema/Resolve.antt =====
-- Target resolution: `resolveTargets`, `resolveTransition`, `resolveTarget` of schema/resolve.go.
use statesman.Base.{
  ℕ, String, false, not, Option, none, some, List, [], ◌∷◌, ◌++◌, ◌==◌, ◌&&◌, ◌||◌, str_eq,
  str_append, if◌then◌else◌, mem,
}
use statesman.Definition.{Addr, Heap, StateKind, Transition, Invoke, node}
use statesman.Schema.{
  DtoFields, Builder, TargetSpec, Result, ok, fail, ◌>>=◌, write, target_missing_id,
  target_unresolved, target_ambiguous, target_empty_segment, target_not_descendant,
  target_no_siblings, target_not_sibling,
}
use statesman.Schema.Text.{begins, tail_text, split_dots}
use statesman.Schema.Nodes.{find_child}
use statesman.Schema.Contents.{dto_of}

-- `b.byKey[id]`
unfoldable pub keyed : String → List (String × List Addr) → List Addr
keyed k [] = []
keyed k ((j, ns) ∷ rest) = if str_eq j k then ns else keyed k rest

-- The loop that adds the nodes whose dotted id is `id`.
unfoldable pub add_by_id : Heap → String → List Addr → List Addr → List Addr
add_by_id h id [] cands = cands
add_by_id h id (n ∷ ns) cands =
    add_by_id h id ns
      (if str_eq (node h n).id id && not (mem n cands) then cands ++ n ∷ [] else cands)

-- The form `#<id>`.
unfoldable pub resolve_absolute : Builder → String → String → Result Addr
unfolding keyed add_by_id
resolve_absolute b id path =
    if str_eq id ""
    then fail path target_missing_id
    else elim (add_by_id b.heap id b.ordered (keyed id b.by_key)) [
      | [] ↦ fail path target_unresolved
      | c ∷ cs ↦ elim cs [ [] ↦ ok c | _ ∷ _ ↦ fail path target_ambiguous ]
    ]

-- The form `.<a>.<b>…`: the loop over the segments.
unfoldable pub resolve_relative : Heap → Addr → List String → String → Result Addr
unfolding find_child
resolve_relative h cur [] path = ok cur
resolve_relative h cur (seg ∷ segs) path =
    let onward = λ (child : Addr). resolve_relative h child segs path in
    if str_eq seg "" then fail path target_empty_segment else elim (find_child h cur seg) [
      | none ↦ fail path target_not_descendant
      | some child ↦ onward child
    ]

-- The form `<sibling>`.
unfoldable pub resolve_sibling : Heap → Option Addr → String → String → Result Addr
unfolding find_child
resolve_sibling h none raw path = fail path target_no_siblings
resolve_sibling h (some p) raw path = elim (find_child h p raw) [
  | none ↦ fail path target_not_sibling
  | some child ↦ ok child
]

unfoldable pub resolve_target : Builder → Addr → String → String → Result Addr
unfolding resolve_absolute resolve_relative resolve_sibling split_dots
resolve_target b src raw path =
    if begins b'#' raw
    then resolve_absolute b (tail_text raw) path
    else if begins b'.' raw
    then resolve_relative b.heap src (split_dots (tail_text raw)) path
    else resolve_sibling b.heap (node b.heap src).parent raw path

abbrev pub no_target : TargetSpec
no_target = record { has = false; raw = ""; path = "" }

-- `b.tspec[t]`
unfoldable pub spec_of : ℕ → List (ℕ × TargetSpec) → TargetSpec
spec_of t [] = no_target
spec_of t ((u, spec) ∷ rest) = if u == t then spec else spec_of t rest

unfoldable pub resolve_transition : Builder → Transition → Result Transition
unfolding spec_of resolve_target
resolve_transition b t =
    let spec = spec_of t.addr b.tspec in
    if not spec.has || str_eq spec.raw "" then ok t else (do
      n ← resolve_target b t.source spec.raw (str_append spec.path ".target")
      ok (record t { targets = n ∷ [] }))

unfoldable pub resolve_list : Builder → List Transition → Result (List Transition)
unfolding resolve_transition
resolve_list b [] = ok []
resolve_list b (t ∷ ts) = do t' ← resolve_transition b t; ts' ← resolve_list b ts; ok (t' ∷ ts')

unfoldable pub resolve_invokes : Builder → List Invoke → Result (List Invoke)
unfolding resolve_list
resolve_invokes b [] = ok []
resolve_invokes b (iv ∷ ivs) = do
  on_done ← resolve_list b iv.on_done
  on_error ← resolve_list b iv.on_error
  ivs' ← resolve_invokes b ivs
  ok (record iv { on_done = on_done; on_error = on_error } ∷ ivs')

-- The default target of a history node.
unfoldable pub history_target : Builder → Addr → StateKind → DtoFields → Result (List Addr)
unfolding resolve_target
history_target b n StateKind.history dto =
    if dto.has_target && not (str_eq dto.target "")
    then (do m ← resolve_target b n dto.target (str_append dto.path ".target"); ok (m ∷ []))
    else ok []
history_target b n _ dto = ok []

-- The body of the loop of `resolveTargets`.
unfoldable pub resolve_node : Addr → Builder → Result Builder
unfolding resolve_list resolve_invokes history_target
resolve_node n b = do
  let v = node b.heap n
  trs ← resolve_list b v.transitions
  ivs ← resolve_invokes b v.invokes
  default ← history_target b n v.kind (dto_of b n)
  ok (write n (record v { transitions = trs; invokes = ivs; history_to = default }) b)

unfoldable pub resolve_targets : List Addr → Builder → Result Builder
unfolding resolve_node
resolve_targets [] b = ok b
resolve_targets (n ∷ ns) b = do b' ← resolve_node n b; resolve_targets ns b'
