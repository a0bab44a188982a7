-- ===== src/Configuration.antt =====
-- The `configuration` of transition.go, with its `atomicIDs` of microstep.go: the set
-- of active nodes. The keys of the map `members` are a list of addresses with no repetition.
pub mod Order
use statesman.Base.{ℕ, Bool, List, [], ◌∷◌, mem, insert, erase, keep, sort_by, leb, map}
use statesman.Definition.{Addr, Heap, StateId, node, is_atomic}

abbrev pub Configuration : Type 0
Configuration = List Addr

abbrev pub new_configuration : Configuration
new_configuration = []

unfoldable pub add : Addr → Configuration → Configuration
add n cfg = insert n cfg

unfoldable pub remove : Addr → Configuration → Configuration
remove n cfg = erase n cfg

unfoldable pub has : Configuration → Addr → Bool
has cfg n = mem n cfg

-- The two orders that the code hands to `sort.Slice`.
abbrev pub before : Heap → Addr → Addr → Bool
before h i j = leb (node h i).doc_order (node h j).doc_order

abbrev pub after : Heap → Addr → Addr → Bool
after h i j = leb (node h j).doc_order (node h i).doc_order

-- `sort.Slice` by ascending `DocOrder`, also the body of `orderedEntry`.
unfoldable pub by_doc_order : Heap → List Addr → List Addr
by_doc_order h = sort_by (before h)

-- `sort.Slice` by descending `DocOrder`.
unfoldable pub by_reverse_doc_order : Heap → List Addr → List Addr
by_reverse_doc_order h = sort_by (after h)

unfoldable pub all_active : Heap → Configuration → List Addr
all_active h cfg = by_doc_order h cfg

unfoldable pub atomic : Heap → Configuration → List Addr
atomic h cfg = keep (is_atomic h) (all_active h cfg)

unfoldable pub atomic_ids : Heap → Configuration → List StateId
atomic_ids h cfg = map (λ n. (node h n).id) (atomic h cfg)
