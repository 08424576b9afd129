-- ===== src/Sql.antt =====
-- core/sql.py of src/dogdb: the classification of a statement, from the syntax tree that sqlglot
-- gives for it.
pub mod Scopes
use Prim.Native.Char.{code}
use Prim.Native.String.{◌∷◌ as char_cons, [] as empty_text}
use dogdb.Prelude.{
  ℕ, ◌+◌, ◌*◌, ◌-◌, String, Bool, true, false, ◌&&◌, Option, none, some, List, [], ◌∷◌, leb,
  if◌then◌else◌,
}
use Scopes.{Scope, from_tables}

pub data SqlKind : Type 0 where
  select other unknown : SqlKind

pub record SqlClassification : Type 0 where
  pub kind : SqlKind
  pub has_top_level_order_by : Option Bool
  pub is_transaction : Bool
  pub tables : Option (List String)
  pub top_level_limit : Option ℕ
  pub top_level_offset : Option ℕ

-- SQLClassification(kind)
abbrev pub of_kind : SqlKind → SqlClassification
of_kind kind = record {
  kind = kind;
  has_top_level_order_by = none;
  is_transaction = false;
  tables = none;
  top_level_limit = none;
  top_level_offset = none;
}

-- The operand of a LIMIT or OFFSET clause: a literal, with `is_string` and its text, or not.
pub data Operand : Type 0 where
  literal : Bool → String → Operand
  computed : Operand

pub record SelectQuery : Type 0 where
  pub has_order : Bool
  pub limit : Option Operand
  pub offset : Option Operand
  pub scopes : Option (List Scope)

-- The classes of sqlglot's expressions that the code tells apart.
pub data Expression : Type 0 where
  set_operation : Bool → Expression
  select_query : SelectQuery → Expression
  create delete drop insert update transaction commit rollback : Expression
  other_expression : Expression

-- What `parse(sql, read=None, error_level=RAISE)` does.
pub data Parsed : Type 0 where
  raised : Parsed
  expressions : List (Option Expression) → Parsed

-- int(value) of a text of ASCII digits
digits_value : ℕ → String → Option ℕ
digits_value acc empty_text = some acc
digits_value acc (char_cons c s) =
    if leb 48 (code c) && leb (code c) 57 then digits_value (acc * 10 + (code c - 48)) s else none

-- `_literal_value`, of the clause's operand.
unfoldable pub literal_value : Option Operand → Option ℕ
unfolding digits_value
literal_value (some (literal false (char_cons c s))) = digits_value 0 (char_cons c s)
literal_value _ = none

-- A known statement other than a query.
abbrev pub known_other : Bool → SqlClassification
known_other is_transaction = record (of_kind other) { is_transaction = is_transaction }

unfoldable pub classify_expression : (String → String) → Expression → SqlClassification
unfolding literal_value from_tables
classify_expression lower (set_operation has_order) = record (of_kind select) {
  has_top_level_order_by = some has_order;
}
classify_expression lower (select_query q) = record {
  kind = select;
  has_top_level_order_by = some q.has_order;
  is_transaction = false;
  tables = from_tables lower q.scopes;
  top_level_limit = literal_value q.limit;
  top_level_offset = literal_value q.offset;
}
classify_expression lower transaction = known_other true
classify_expression lower commit = known_other true
classify_expression lower rollback = known_other true
classify_expression lower other_expression = of_kind unknown
classify_expression lower _ = known_other false

unfoldable pub classify : (String → String) → Parsed → SqlClassification
unfolding classify_expression
classify lower (expressions (some e ∷ [])) = classify_expression lower e
classify lower _ = of_kind unknown
