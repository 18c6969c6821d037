-- ===== src/Sql/Tests.antt =====
-- Witnesses and tests of the statements.
use local_drive.Base.{◌+◌, ◌≡◌, refl, List, [], ◌∷◌, ◌++◌, Str, text, count, join, length, ok}
use local_drive.Sql.Placeholder.{Arg, str, question, build_placeholder}
use local_drive.Sql.Clause.{build_clause}
use local_drive.Sql.Select.{select, select_query, select_where, select_builder}
use local_drive.Sql.Update.{update, update_where, update_builder}
use local_drive.Sql.Insert.{insert_into, build_insert, insert_query}
use local_drive.Sql.Calls.{Call, equal_to, is_value, and_then, calls, all_values, is_calls}
use local_drive.Sql.Texts.{text_of, build_clause-bare}
use local_drive.Sql.Built.{select-build_clause, update-build_clause, build_insert-Inserts, Inserts}

-- FileID = ? AND Deleted_On IS NULL
abbrev conditions : List Call
conditions =
    equal_to (text "FileID") (str (text "f1"))
    ∷ and_then
    ∷ is_value (text "Deleted_On") (text "NULL")
    ∷ []

abbrev columns : List Str
columns = text "FileID" ∷ text "FileName" ∷ []

abbrev row : List Arg
row = str (text "f1") ∷ str (text "notes") ∷ []

select-build_clause_example :
    (q : Str) × (build_clause (calls conditions (select_where (select (text "File") columns)))
      ≡ ok (q, all_values conditions))
    × (count question q + is_calls conditions ≡ length (all_values conditions))
unfolding text count
select-build_clause_example =
    select-build_clause (text "File") columns conditions refl refl (refl, (tt, ((refl, refl), tt)))

update-build_clause_example :
    (q : Str) × (build_clause (calls conditions (update_where (update (text "File") columns row)))
      ≡ ok (q, row ++ all_values conditions))
    × (count question q + is_calls conditions ≡ length (row ++ all_values conditions))
unfolding text count
update-build_clause_example =
    update-build_clause (text "File") columns row conditions refl refl refl
      (refl, (tt, ((refl, refl), tt)))

build_insert-Inserts_example :
    Inserts columns (row ++ row) (build_insert (insert_into (text "File") columns (row ++ row)))
unfolding text count
build_insert-Inserts_example = build_insert-Inserts (text "File") columns (row ++ row) refl refl

select_query_test :
    select_query (select (text "File") columns) ≡ text "SELECT FileID,FileName FROM File"
unfolding select_query select text join
select_query_test = refl

insert_query_test :
    insert_query (insert_into (text "File") columns (row ++ row))
    ≡ text "INSERT INTO File (FileID,FileName) VALUES (?,?),(?,?)"
unfolding insert_query insert_into local_drive.Sql.Insert.build_columns build_placeholder text join
insert_query_test = refl

-- The same calls with a quote and more in the value.
abbrev injecting : List Call
injecting =
    equal_to (text "FileID") (str (text "' OR 1=1 --"))
    ∷ and_then
    ∷ is_value (text "Deleted_On") (text "NULL")
    ∷ []

build_clause-bare_example :
    (text_of (build_clause (calls conditions (select_where (select (text "File") columns))))
      ≡ text_of (build_clause (calls injecting (select_where (select (text "File") columns)))))
    × (text_of (build_clause (calls conditions (update_where (update (text "File") columns row))))
        ≡ text_of (build_clause (calls injecting (update_where (update (text "File") columns [])))))
build_clause-bare_example = build_clause-bare (text "File") columns row [] conditions injecting refl
