-- ===== src/Examples/Domains.antt =====
-- The theorems on domains, exit sets and conflicts, at the chart `job`.
use statesman.Base.{◌≡◌, ◌≢◌, refl, true, none, [], ◌∷◌, mem, ◌↔◌, Any, arith}
use statesman.Definition.{Transition}
use statesman.Configuration.Order.{Fits, Descending}
use statesman.Domain.{find_lcca, compute_exit_set}
use statesman.Domain.Lcca.{IsLcca, find_lcca-IsLcca, find_lcca-eq-none}
use statesman.Domain.Exits.{Leaves, compute_exit_set-Descending, compute_exit_set_iff}
use statesman.Select.{remove_conflicting_transitions}
use statesman.Select.Conflicts.{
  PairwiseApart, remove_conflicting-PairwiseApart, remove_conflicting_some,
}
use statesman.Examples.Charts.{job, working, job-IsTree, edge}

abbrev stop : Transition
stop = edge 2 2 "stop" (1 ∷ [])

abbrev go_left : Transition
go_left = edge 3 4 "go" (5 ∷ [])

pub working-Fits : Fits job working
working-Fits =
    (omega arith, (omega arith, (omega arith, (omega arith, (omega arith, (omega arith, tt))))))

find_lcca-IsLcca_example : IsLcca job (4 ∷ 5 ∷ []) 3
unfolding find_lcca statesman.Definition.proper_ancestors statesman.Definition.node
    statesman.Definition.is_descendant
find_lcca-IsLcca_example =
    find_lcca-IsLcca job job-IsTree 4 (5 ∷ []) 3 (omega arith, (omega arith, tt)) refl

find_lcca-eq-none_example : (find_lcca job (2 ∷ 0 ∷ []) ≡ none) ↔ (mem 0 (2 ∷ 0 ∷ []) ≡ true)
find_lcca-eq-none_example =
    find_lcca-eq-none job job-IsTree 2 (0 ∷ []) (omega arith, (omega arith, tt))

compute_exit_set-Descending_example :
    Descending (compute_exit_set job working (stop ∷ go_left ∷ []))
compute_exit_set-Descending_example =
    compute_exit_set-Descending job job-IsTree working (stop ∷ go_left ∷ []) working-Fits

compute_exit_set_iff_example :
    (mem 4 (compute_exit_set job working (stop ∷ [])) ≡ true)
    ↔ ((mem 4 working ≡ true) × Any (Leaves job 4) (stop ∷ []))
compute_exit_set_iff_example =
    compute_exit_set_iff job job-IsTree working 4 (stop ∷ []) working-Fits

remove_conflicting-PairwiseApart_example :
    PairwiseApart job working (remove_conflicting_transitions job working (stop ∷ go_left ∷ []))
remove_conflicting-PairwiseApart_example =
    remove_conflicting-PairwiseApart job working (stop ∷ go_left ∷ [])

remove_conflicting_some_example :
    remove_conflicting_transitions job working (stop ∷ go_left ∷ []) ≢ []
remove_conflicting_some_example = remove_conflicting_some job working stop (go_left ∷ [])
