-- ===== src/Schema.antt =====
-- The loader's own types (schema/parse.go, schema/errors.go): the tree that the parse stage yields,
-- the errors, and the builder of schema/build.go with the heap that it fills.
pub mod Tokens
pub mod Parse
pub mod Text
pub mod Nodes
pub mod Contents
pub mod Resolve
pub mod Callsites
pub mod Load
pub mod Delays
use statesman.Base.{ℕ, zero, suc, ◌+◌, String, Bool, Option, none, some, List, [], ◌∷◌, ◌++◌, set}
use statesman.Json.{Fields}
use statesman.Definition.{Addr, Heap, StateNode}

pub record DtoAction : Type 0 where
  pub path : String
  pub has_type : Bool
  pub typ : String
  pub params : Fields

pub record DtoGuard : Type 0 where
  pub path : String
  pub has_type : Bool
  pub typ : String
  pub params : Fields

pub record DtoTransition : Type 0 where
  pub path : String
  pub has_target : Bool
  pub target : String
  pub actions : List DtoAction
  pub guard : Option DtoGuard

pub record DtoEvent : Type 0 where
  pub desc : String
  pub path : String
  pub transitions : List DtoTransition

pub record DtoInvoke : Type 0 where
  pub path : String
  pub has_id : Bool
  pub id : String
  pub has_src : Bool
  pub src : String
  pub on_done : List DtoTransition
  pub on_error : List DtoTransition

-- The fields of `dtoState` but its children.
pub record DtoFields : Type 0 where
  pub path : String
  pub has_id : Bool
  pub id : String
  pub has_type : Bool
  pub typ : String
  pub has_target : Bool
  pub target : String
  pub has_history : Bool
  pub history : String
  pub has_initial : Bool
  pub initial : String
  pub entry : List DtoAction
  pub exit : List DtoAction
  pub on : List DtoEvent
  pub after : List DtoEvent
  pub always : List DtoTransition
  pub invoke : List DtoInvoke
  pub has_states : Bool

-- `dtoState`, and `[]dtoChild` in the order of the keys.
mutual
  pub data DtoState : Type 0 where
    state : DtoFields → DtoChildren → DtoState

  pub data DtoChildren : Type 0 where
    nil : DtoChildren
    cons : String → DtoState → DtoChildren → DtoChildren

-- The rule that a `loadError` names, in place of its text. `exhausted` is the model's own: a
-- recursion did not come back within its fuel.
pub data Rule : Type 0 where
  root_id_required id_equals_key unknown_type compound_requires_initial initial_not_a_child : Rule
  history_parent history_kind history_on_history event_descriptor_wildcard : Rule
  delay_empty delay_overflow invoke_id_required invoke_src_required : Rule
  action_type_required guard_type_required : Rule
  target_missing_id target_unresolved target_ambiguous target_empty_segment : Rule
  target_not_descendant target_no_siblings target_not_sibling : Rule
  delimiter_expected key_expected string_expected transition_expected : Rule
  invalid_params invalid_value unknown_field root_only_field malformed trailing_token : Rule
  exhausted : Rule

pub record LoadError : Type 0 where
  pub path : String
  pub rule : Rule

pub data Result (A : Type 0) : Type 0 where
  ok : A → Result A
  err : LoadError → Result A

abbrev pub fail : {A : Type 0} → String → Rule → Result A
fail path rule = err (record { path = path; rule = rule })

infixl 5 ◌>>=◌ ◌>>◌
abbrev pub ◌>>=◌ : {A B : Type 0} → Result A → (A → Result B) → Result B
ok a >>= f = f a
err e >>= f = err e

abbrev pub ◌>>◌ : {B : Type 0} → Result (Unit {0}) → Result B → Result B
m >> k = m >>= λ _. k

pub record TargetSpec : Type 0 where
  pub has : Bool
  pub raw : String
  pub path : String

-- `builder`, with the heap that its pointers go into. `dtos` holds, at the address of a node, what
-- the map `nodeDTO` holds for it; `tspec` is keyed by the address of a transition.
pub record Builder : Type 0 where
  pub heap : Heap
  pub dtos : List DtoFields
  pub tspec : List (ℕ × TargetSpec)
  pub by_key : List (String × List Addr)
  pub ordered : List Addr
  pub next_transition : ℕ

abbrev pub new_builder : Builder
new_builder = record {
  heap = [];
  dtos = [];
  tspec = [];
  by_key = [];
  ordered = [];
  next_transition = 0;
}

-- `*n = v`
abbrev pub write : Addr → StateNode → Builder → Builder
write n v b = record b { heap = set b.heap n v }
