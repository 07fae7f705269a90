-- ===== src/Analyzers/Tests.antt =====
-- The analyzer on small files.
use shorty.Base.{Str, str, ℕ, ◌≡◌, refl, List, [], ◌∷◌, map, concat, All}
use shorty.Analyzers.{
  func_decl, expr_stmt, call_expr, selector_expr, ident, other, Node, node, Nodes, leaf, child,
  File, run_exitcheck, wrapped_run, inspect_node, inspect_one, inspect_expr, is_skipped,
}
use shorty.Analyzers.Exits.{exits_reported}
use shorty.Analyzers.MainExits.{IsPlainFile, file_exits, is_plain, funcless, exits, main_exits}

abbrev only : Node → Nodes
only n = child n leaf

-- `os.Exit(…)` at this position.
abbrev exit_at : ℕ → Node
exit_at pos = node expr_stmt (
    only (
      node (call_expr pos) (
        only (
          node (selector_expr (str "Exit"))
            (child (node (ident (str "os")) leaf) (only (node (ident (str "Exit")) leaf)))))))

abbrev function : Str → Node → Node
function name statement = node (func_decl name) (only (node other (only statement)))

abbrev file : List (List Str) → Nodes → File
file comments decls = record {
  package_name = str "main";
  file_name = str "main.go";
  comments = comments;
  tree = node other decls;
}

abbrev files : List File
files =
    file [] (child (function (str "run") (exit_at 1)) (only (function (str "main") (exit_at 2))))
    ∷ file ((str "//lint:file-ignore all" ∷ []) ∷ []) (only (function (str "main") (exit_at 3)))
    ∷ []

files-IsPlainFile : All IsPlainFile files
unfolding is_plain funcless exits
files-IsPlainFile = ((refl, refl), ((refl, refl), tt))

exits_reported_example : wrapped_run [] run_exitcheck files ≡ concat (map file_exits files)
exits_reported_example = exits_reported files files-IsPlainFile

-- The second of them is skipped, and in the first one only main is looked at.
reported : concat (map file_exits files) ≡ 2 ∷ []
unfolding main_exits exits is_skipped shorty.Base.str_eq
reported = refl

-- A function literal in a variable that is declared after main is taken for a part of main.
abbrev after_main : Nodes
after_main = child (function (str "main") (node other leaf)) (only (node other (only (exit_at 4))))

taken_for_main : run_exitcheck (file [] after_main ∷ []) ≡ 4 ∷ []
unfolding run_exitcheck inspect_node inspect_one inspect_expr shorty.Base.str_eq
taken_for_main = refl
