-- ===== src/TaskAgenda/Replan/Least.antt =====
-- The ids that a local replanning resets.
use agent_langraph.Prelude.{String, ◌≡◌, true, false, List, [], ◌∷◌, member, All}
use agent_langraph.TaskAgenda.{Item, id_or_empty}
use agent_langraph.TaskAgenda.Replan.{joins}

-- The rows' ids.
abbrev ids_of : List Item → List String
ids_of [] = []
ids_of (i ∷ is) = id_or_empty i ∷ ids_of is

-- No row is left that hangs on these ids and is not among them.
abbrev pub IsClosed : List Item → List String → Type 0
IsClosed is ids = All (λ i. joins ids i ≡ false) is

-- Every id of the one list is in the other.
abbrev pub IsWithin : List String → List String → Type 0
IsWithin ids ks = (t : String) → member t ids ≡ true → member t ks ≡ true
