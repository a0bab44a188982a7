-- ===== src/Schema/Load.antt =====
-- `build` of schema/build.go, the passes in their order, and `Load` of schema/load.go.
use statesman.Base.{true, not, none, ◌||◌, str_eq, if◌then◌else◌}
use statesman.Definition.{Definition, new_definition}
use statesman.Schema.{
  DtoFields, DtoState, state, Result, ok, fail, ◌>>=◌, root_id_required, new_builder,
}
use statesman.Schema.Nodes.{build_node, assign_doc_order}
use statesman.Schema.Contents.{build_contents}
use statesman.Schema.Resolve.{resolve_targets}
use statesman.Schema.Callsites.{assign_callsites}
use statesman.Schema.Tokens.{Tokens}
use statesman.Schema.Parse.{parse}

abbrev pub fields_of : DtoState → DtoFields
fields_of (state dto states) = dto

-- The root is the first node that is allocated.
unfoldable pub build : DtoState → Result Definition
unfolding build_node assign_doc_order build_contents resolve_targets assign_callsites new_definition
build root =
    if not (fields_of root).has_id || str_eq (fields_of root).id ""
    then fail "$.id" root_id_required
    else (do
      shells ← build_node root (fields_of root).id "" none true new_builder
      let numbered = assign_doc_order 0 shells
      filled ← build_contents numbered.ordered numbered
      resolved ← resolve_targets filled.ordered filled
      let counted = assign_callsites resolved
      ok (
          new_definition (fields_of root).id counted.0.heap 0 counted.1.action_count
            counted.1.guard_count))

-- `Load`, from the tokens of the document.
unfoldable pub load : Tokens → Result Definition
unfolding parse build
load tokens = do root ← parse tokens; build root
