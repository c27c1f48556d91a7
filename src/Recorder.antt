-- ===== src/Recorder.antt =====
-- recorder.py: what a statement is, as far as its replay goes. sqlglot, which parses, and
-- `str.lower` are parameters: the record `Sqlglot` has what the source asks of a parsed tree.
pub mod Blind
pub mod Soundness
use ducklake_serverless.Base.{
  ℕ, Text, text, text_eq, Option, none, some, List, [], ◌∷◌, ◌++◌, map, any, filter, Bool, true,
  false, not, ◌&&◌, ◌||◌, ◌==◌, if◌then◌else◌,
}
use ducklake_serverless.Errors.{Result, ok, err, input_validation}
use ducklake_serverless.Models.Changeset.{
  Statement, StatementClass, blind_append, state_dependent_dml, ddl, read,
}

-- `exp.Anonymous` has the name that was written, any other `exp.Func` its SQL name.
pub data Function : Type 0 where
  anonymous builtin : Text → Function

-- An `exp.Table`: its identity, its name, which is empty for a function, and the function.
pub record Table : Type 0 where
  pub id : ℕ
  pub name : Text
  pub function : Option Function

-- The classes that `classify` tells apart.
pub data TreeKind : Type 0 where
  create drop_statement alter truncate_table comment : TreeKind
  update delete merge : TreeKind
  insert select other : TreeKind

pub record Sqlglot (Expr : Type 0) : Type 0 where
  -- `sqlglot.parse(sql, read="duckdb")`; `none` where it raises ParseError.
  pub parse : Text → Option (List (Option Expr))
  pub kind : Expr → TreeKind
  -- `find_all(exp.Func)` and `find_all(exp.Table)`.
  pub functions : Expr → List Function
  pub tables : Expr → List Table
  -- `insert.this`, and the table that an expression is itself.
  pub target : Expr → Option Expr
  pub as_table : Expr → Option Table
  -- The truth of `args.get("alternative")`, `"conflict"` and `"returning"`.
  pub alternative : Expr → Bool
  pub conflict : Expr → Bool
  pub returning : Expr → Bool
  pub lower : Text → Text

abbrev pub volatile_functions : List Text
volatile_functions =
    text "now"
    ∷ text "current_timestamp"
    ∷ text "get_current_timestamp"
    ∷ text "transaction_timestamp"
    ∷ text "current_date"
    ∷ text "current_time"
    ∷ text "get_current_time"
    ∷ text "current_localtime"
    ∷ text "current_localtimestamp"
    ∷ text "today"
    ∷ text "random"
    ∷ text "rand"
    ∷ text "uuid"
    ∷ text "gen_random_uuid"
    ∷ text "uuidv4"
    ∷ text "uuidv7"
    ∷ text "nextval"
    ∷ text "getenv"
    ∷ text "current_setting"
    ∷ []

abbrev pub staged_file_sources : List Text
staged_file_sources =
    text "read_parquet"
    ∷ text "read_csv"
    ∷ text "read_csv_auto"
    ∷ text "read_json"
    ∷ text "read_json_auto"
    ∷ text "read_json_objects"
    ∷ text "read_ndjson"
    ∷ text "read_ndjson_auto"
    ∷ text "parquet_scan"
    ∷ []

unfoldable pub among : List Text → Text → Bool
among names name = any (text_eq name) names

module _ {Expr : Type 0} (sqlglot : Sqlglot Expr) where
  abbrev pub function_name : Function → Text
  function_name (anonymous name) = sqlglot.lower name
  function_name (builtin name) = sqlglot.lower name

  unfoldable pub function_names : Expr → List Text
  function_names tree = map function_name (sqlglot.functions tree)

  unfoldable pub names_of_relations : List Table → List Text
  names_of_relations [] = []
  names_of_relations (t ∷ ts) = elim t.function [
    | none ↦ names_of_relations ts
    | some f ↦ function_name f ∷ names_of_relations ts
  ]

  unfoldable pub relation_functions : Expr → List Text
  unfolding names_of_relations
  relation_functions tree = names_of_relations (sqlglot.tables tree)

  abbrev pub ids : List Table → List ℕ
  ids = map (λ (t : Table). t.id)

  abbrev pub own_table : Option Table → List ℕ
  own_table none = []
  own_table (some t) = t.id ∷ []

  -- The tables of the target, and the target if it is a table.
  abbrev pub target_tables : Option Expr → List ℕ
  target_tables none = []
  target_tables (some target) = ids (sqlglot.tables target) ++ own_table (sqlglot.as_table target)

  -- A named table that is not one of the target's.
  abbrev pub is_read : List ℕ → Table → Bool
  is_read targets t = not (text_eq t.name []) && not (any (λ i. t.id == i) targets)

  unfoldable pub reads_lake_tables : Expr → Bool
  reads_lake_tables tree = any (is_read (target_tables (sqlglot.target tree))) (sqlglot.tables tree)

  unfoldable pub classify_insert : Expr → StatementClass
  classify_insert tree =
      if sqlglot.alternative tree || (sqlglot.conflict tree || sqlglot.returning tree)
      then state_dependent_dml
      else if reads_lake_tables tree
      then state_dependent_dml
      else if any (λ name. not (among staged_file_sources name)) (relation_functions tree)
      then state_dependent_dml
      else blind_append

  abbrev pub class_of : TreeKind → Expr → StatementClass
  class_of create tree = ddl
  class_of drop_statement tree = ddl
  class_of alter tree = ddl
  class_of truncate_table tree = ddl
  class_of comment tree = ddl
  class_of update tree = state_dependent_dml
  class_of delete tree = state_dependent_dml
  class_of merge tree = state_dependent_dml
  class_of insert tree = classify_insert tree
  class_of select tree = read
  class_of other tree = state_dependent_dml

  unfoldable pub classify_tree : Expr → Result StatementClass
  classify_tree tree =
      if any (among volatile_functions) (function_names tree)
      then err input_validation
      else ok (class_of (sqlglot.kind tree) tree)

  -- Exactly one statement, and not an empty one.
  unfoldable pub only_tree : Option (List (Option Expr)) → Option Expr
  only_tree (some (some tree ∷ [])) = some tree
  only_tree _ = none

  abbrev classify_only : Option Expr → Result StatementClass
  classify_only none = err input_validation
  classify_only (some tree) = classify_tree tree

  unfoldable pub classify : Text → Result StatementClass
  classify sql = classify_only (only_tree (sqlglot.parse sql))

  abbrev stated : Text → List Text → Result StatementClass → Result Statement
  stated sql params (err e) = err e
  stated sql params (ok c) = ok (record { sql = sql; params = params; statement_class = c })

  -- `record`
  unfoldable pub record_statement : Text → List Text → Result Statement
  record_statement sql params = stated sql params (classify sql)
