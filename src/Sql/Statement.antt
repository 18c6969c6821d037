-- ===== src/Sql/Statement.antt =====
-- What the condition clause relies on in its statement: SqlSelect and SqlUpdate fill this interface.
use local_drive.Base.{◌≡◌, refl, List, ◌++◌, Str, some, ok}
use local_drive.Sql.Placeholder.{Arg}
use local_drive.Sql.Clause.{Builder, query_builder_build}
use local_drive.Sql.Select.{SqlSelect, select_query, select_builder, build_select, write_select}
use local_drive.Sql.Update.{SqlUpdate, update_query, update_builder, build_update, write_update}

-- A statement's own text, the values that it holds, and how they move.
pub record Statement {ℓ} (B : Type ℓ) ⦃b : Builder B⦄ : Type ℓ where
  pub main : B → Str
  pub given : B → List Arg
  pub build-main :
      (f : Str) (s : B) → b.build (some f) s ≡ ok (query_builder_build (main s) (some f), given s)
  pub given-write : (args : List Arg) (s : B) → given (b.write args s) ≡ given s ++ args
  pub main-write : (args : List Arg) (s : B) → main (b.write args s) ≡ main s

pub select-build :
    (f : Str) (s : SqlSelect)
    → build_select (some f) s ≡ ok (query_builder_build (select_query s) (some f), s.args)
unfolding build_select
select-build f s = refl

pub select-args : (args : List Arg) (s : SqlSelect) → (write_select args s).args ≡ s.args ++ args
unfolding write_select
select-args args s = refl

pub select-query :
    (args : List Arg) (s : SqlSelect) → select_query (write_select args s) ≡ select_query s
unfolding write_select select_query
select-query args s = refl

pub update-build :
    (f : Str) (s : SqlUpdate)
    → build_update (some f) s ≡ ok (query_builder_build (update_query s) (some f), s.args)
unfolding build_update
update-build f s = refl

pub update-args : (args : List Arg) (s : SqlUpdate) → (write_update args s).args ≡ s.args ++ args
unfolding write_update
update-args args s = refl

pub update-query :
    (args : List Arg) (s : SqlUpdate) → update_query (write_update args s) ≡ update_query s
unfolding write_update update_query
update-query args s = refl

abbrev pub select_statement : Statement SqlSelect
select_statement = record {
  main = select_query;
  given = λ s. s.args;
  build-main = select-build;
  given-write = select-args;
  main-write = select-query;
}

abbrev pub update_statement : Statement SqlUpdate
update_statement = record {
  main = update_query;
  given = λ s. s.args;
  build-main = update-build;
  given-write = update-args;
  main-write = update-query;
}
