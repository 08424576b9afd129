-- ===== src/Sql/Scopes.antt =====
-- `_table_name`, `_within_cte` and `_from_tables` of core/sql.py: the tables that a query reads.
-- Names are compared in lower case; `lower` is Python's `str.lower`.
use Prim.Native.String.{◌++◌}
use dogdb.Prelude.{
  ℕ, ◌+◌, String, Bool, true, false, ◌&&◌, not, Option, none, some, List, [], ◌∷◌, ◌==◌, str_eq,
  if◌then◌else◌, any, select,
}

pub data ScopeType : Type 0 where
  root cte subquery derived_table union : ScopeType

-- A selected source: a table by the names of its parts, or a nested scope.
pub data Source : Type 0 where
  table : List String → Source
  scope : ScopeType → Source
  other : Source

-- A scope with the types of the scopes that enclose it, the nearest first.
pub record Scope : Type 0 where
  pub scope_type : ScopeType
  pub parents : List ScopeType
  pub sources : List Source

abbrev pub is_root : ScopeType → Bool
is_root root = true
is_root _ = false

abbrev pub is_cte : ScopeType → Bool
is_cte cte = true
is_cte _ = false

-- ".".join(parts)
unfoldable pub join_dot : List String → String
join_dot [] = ""
join_dot (s ∷ []) = s
join_dot (s ∷ t ∷ l) = s ++ ("." ++ join_dot (t ∷ l))

lower_all : (String → String) → List String → List String
lower_all lower [] = []
lower_all lower (s ∷ l) = lower s ∷ lower_all lower l

unfoldable pub table_name : (String → String) → List String → Option String
unfolding join_dot lower_all
table_name lower parts = elim (lower_all lower (select (λ s. not (str_eq s "")) parts)) [
  | [] ↦ none
  | s ∷ l ↦ some (join_dot (s ∷ l))
]

-- The walk up `current.parent`.
unfoldable pub within_cte : Scope → Bool
within_cte s = any is_cte (s.scope_type ∷ s.parents)

-- The names of the tables among the sources; none if one has no name.
unfoldable pub add_names : (String → String) → List Source → List String → Option (List String)
unfolding table_name
add_names lower [] names = some names
add_names lower (table parts ∷ l) names = elim (table_name lower parts) [
  | none ↦ none
  | some name ↦ add_names lower l (name ∷ names)
]
add_names lower (_ ∷ l) names = add_names lower l names

-- The loop over the scopes; `skip` is the position of the root among those left.
unfoldable pub scan :
    (String → String) → Option ℕ → ℕ → List Scope → List String → Option (List String)
unfolding add_names within_cte
scan lower root_at i [] names = some names
scan lower root_at i (s ∷ l) names =
    if not (elim root_at [ none ↦ false | some r ↦ r == i ]) && not (within_cte s)
    then scan lower root_at (i + 1) l names
    else (elim (add_names lower s.sources names) [
      | none ↦ none
      | some names' ↦ scan lower root_at (i + 1) l names'
    ])

unfoldable pub find_root : ℕ → List Scope → Option (ℕ × Scope)
find_root i [] = none
find_root i (s ∷ l) = if is_root s.scope_type then some (i, s) else find_root (i + 1) l

-- A source of the root that is a scope and no CTE.
abbrev pub is_derived : Source → Bool
is_derived (scope t) = not (is_cte t)
is_derived _ = false

abbrev pub nonempty : List String → Option (List String)
nonempty [] = none
nonempty (s ∷ l) = some (s ∷ l)

-- `_from_tables`; no scopes stand for a traversal that raises.
unfoldable pub from_tables : (String → String) → Option (List Scope) → Option (List String)
unfolding find_root scan
from_tables lower none = none
from_tables lower (some scopes) = elim (find_root 0 scopes) [
  | none ↦ none
  | some (r, s) ↦
      if any is_derived s.sources
      then none
      else (elim (scan lower (some r) 0 scopes []) [ none ↦ none | some names ↦ nonempty names ])
]
