-- ===== src/Tests/Statements.antt =====
-- `INSERT INTO t SELECT * FROM read_parquet('f')`, as a parser would give it.
use ducklake_serverless.Base.{
  ℕ, ◌≡◌, ◌↔◌, refl, Text, text, text_eq, none, some, List, [], ◌∷◌, false, All, ◌==◌,
  if◌then◌else◌,
}
use ducklake_serverless.Errors.{ok}
use ducklake_serverless.Models.Changeset.{Statement, blind_append, has_ddl, has_reads}
use ducklake_serverless.Rebase.{decide_rebase, has_state_dependent}
use ducklake_serverless.Recorder.{
  builtin, Table, insert, Sqlglot, among, function_names, names_of_relations, relation_functions,
  reads_lake_tables, classify_insert, classify_tree, only_tree, classify, record_statement,
}
use ducklake_serverless.Recorder.Blind.{AppendsBlindly}
use ducklake_serverless.Recorder.Soundness.{
  classify-AppendsBlindly, IsRecorded, replay-AppendsBlindly,
}

-- The expressions: the statement, 0, and its target, 1.
abbrev target_table : Table
target_table = record { id = 1; name = text "t"; function = none }

abbrev read_parquet : Table
read_parquet = record { id = 2; name = []; function = some (builtin (text "read_parquet")) }

abbrev tables_of : ℕ → List Table
tables_of n = if n == 0 then target_table ∷ read_parquet ∷ [] else target_table ∷ []

abbrev pub toy : Sqlglot ℕ
toy = record {
  parse = λ sql. some (some 0 ∷ []);
  kind = λ n. insert;
  functions = λ n. builtin (text "read_parquet") ∷ [];
  tables = tables_of;
  target = λ n. some 1;
  as_table = λ n. some target_table;
  alternative = λ n. false;
  conflict = λ n. false;
  returning = λ n. false;
  lower = λ t. t;
}

abbrev pub sql : Text
sql = text "INSERT INTO t SELECT * FROM read_parquet('f')"

blind : classify toy sql ≡ ok blind_append
unfolding classify only_tree classify_tree classify_insert function_names relation_functions
    names_of_relations reads_lake_tables among text_eq
blind = refl

classify-AppendsBlindly_example :
    (classify toy sql ≡ ok blind_append)
    ↔ ((tree : ℕ) × (toy.parse sql ≡ some (some tree ∷ [])) × AppendsBlindly toy tree)
classify-AppendsBlindly_example = classify-AppendsBlindly toy sql

abbrev statement : Statement
statement = record { sql = sql; params = []; statement_class = blind_append }

recorded : IsRecorded toy statement
unfolding record_statement
recorded = rw blind refl

replay-AppendsBlindly_example :
    All
      (λ s. (tree : ℕ) × (toy.parse s.sql ≡ some (some tree ∷ [])) × AppendsBlindly toy tree)
      (statement ∷ [])
replay-AppendsBlindly_example =
    replay-AppendsBlindly toy (record { statements = statement ∷ [] }) 0 5 (recorded, tt)
      (unfold decide_rebase has_ddl has_state_dependent has_reads in refl)
