-- ===== src/Db/Statement/Tests.antt =====
-- db: statements on small inputs, and the theorems at such inputs.
use go_dev_sdk.Prelude.{◌≡◌, refl, [], ◌∷◌, Option, some, Bytes, codes, List, eq_bytes}
use go_dev_sdk.Db.Driver.{mysql_driver}
use go_dev_sdk.Db.Bind.Values.{Val, Result, ok, opaque}
use go_dev_sdk.Db.Bind.{bind_query}
use go_dev_sdk.Db.Statement.{Err, leaf, no_rows, execute}
use go_dev_sdk.Db.Statement.Operation.{
  operation_name, skip_leading, move, to_upper, first_word, is_among,
}
use go_dev_sdk.Db.Statement.Operation.Verbs.{Piece, blank, block_comment, paren}
use go_dev_sdk.Db.Statement.Telling.{TellsOnce, bound_count, execute-TellsOnce}

select : operation_name (codes "get") (codes "/* app */ (select 1)") ≡ codes "SELECT"
unfolding operation_name skip_leading move to_upper first_word is_among eq_bytes
select = refl

-- No verb, and a comment that does not end.
unknown : operation_name (codes "get") (codes "/* select") ≡ codes "GET"
unfolding operation_name skip_leading move to_upper first_word is_among eq_bytes
unknown = refl

longer_word : operation_name (codes "exec") (codes "settle x") ≡ codes "EXEC"
unfolding operation_name skip_leading move to_upper first_word is_among eq_bytes
longer_word = refl

abbrev before : List Piece
before = block_comment (codes "app") ∷ blank 10 ∷ paren ∷ []

abbrev no_names : Bytes → Val → Result (Bytes × List Val)
no_names q arg = ok (q, [])

abbrev finds_none : Bytes → List Val → Option Err
finds_none q args = some (leaf no_rows)

execute-TellsOnce_example :
    TellsOnce
      (bound_count (bind_query no_names mysql_driver (codes "select 1") (opaque 0)))
      (execute no_names mysql_driver (codes "get") (codes "select 1") (opaque 0) finds_none [])
      []
execute-TellsOnce_example =
    execute-TellsOnce no_names mysql_driver (codes "get") (codes "select 1") (opaque 0) finds_none
      []
