-- ===== src/Analyzers.antt =====
-- internal/analyzers: the analyzer of exitcheck/exitcheck.go, and the wrapper of nolint/nolint.go. A
-- syntax tree of go/ast is a tree of nodes, with the children of each in the order of ast.Inspect.
pub mod Exits
pub mod MainExits
pub mod Skipping
mod Tests
use shorty.Base.{
  Str, str, ℕ, Bool, true, false, not, ◌&&◌, ◌||◌, List, [], ◌∷◌, ◌++◌, any, length, ltb, leb, ◌==◌,
  str_eq, if◌then◌else◌,
}

-- What the analyzer tells apart: a selector has its Sel, an identifier its name, a call its position.
pub data Shape : Type 0 where
  func_decl : Str → Shape
  expr_stmt : Shape
  call_expr : ℕ → Shape
  selector_expr : Str → Shape
  ident : Str → Shape
  other : Shape

mutual
  pub data Node : Type 0 where
    node : Shape → Nodes → Node

  pub data Nodes : Type 0 where
    leaf : Nodes
    child : Node → Nodes → Nodes

-- ast.IsExported, for a name that starts with an ASCII letter.
abbrev is_exported : Str → Bool
is_exported [] = false
is_exported (c ∷ s) = leb b'A' c && leb c b'Z'

-- The position of a statement that is a call of os.Exit: the cascade of type assertions of
-- inspectExpr, each on the first child of the node before.
abbrev package_exit : Str → ℕ → Nodes → List ℕ
package_exit sel pos (child (node (ident name) _) _) =
    if str_eq sel (str "Exit") && str_eq name (str "os") then pos ∷ [] else []
package_exit sel pos _ = []

abbrev selected_exit : ℕ → Nodes → List ℕ
selected_exit pos (child (node (selector_expr sel) x) _) =
    if not (is_exported sel) then [] else package_exit sel pos x
selected_exit pos _ = []

abbrev called_exit : Nodes → List ℕ
called_exit (child (node (call_expr pos) fun) _) = selected_exit pos fun
called_exit _ = []

-- inspectExpr: the reports.
pub inspect_expr : Nodes → Bool → List ℕ
inspect_expr x inside_main_func = if not inside_main_func then [] else called_exit x

-- The function that `inspect` returns: the flag after this node, and the reports.
pub inspect_one : Shape → Nodes → Bool → Bool × List ℕ
inspect_one (func_decl name) x inside = (str_eq name (str "main"), [])
inspect_one expr_stmt x inside = (inside, inspect_expr x inside)
inspect_one _ x inside = (inside, [])

unfoldable mutual
  -- ast.Inspect with this function, which always goes on into the children.
  pub inspect_node : Node → Bool → Bool × List ℕ
  inspect_node (node s kids) inside =
      let (inside', here) = inspect_one s kids inside in
      let (inside'', below) = inspect_nodes kids inside' in (inside'', here ++ below)

  pub inspect_nodes : Nodes → Bool → Bool × List ℕ
  inspect_nodes leaf inside = (inside, [])
  inspect_nodes (child n ns) inside =
      let (inside', first) = inspect_node n inside in
      let (inside'', rest) = inspect_nodes ns inside' in (inside'', first ++ rest)

-- A file: the name of its package, its file name, its comment groups, and its tree.
pub record File : Type 0 where
  pub package_name : Str
  pub file_name : Str
  pub comments : List (List Str)
  pub tree : Node

abbrev ends_with : Str → Str → Bool
ends_with [] suffix = str_eq [] suffix
ends_with (c ∷ s) suffix = str_eq (c ∷ s) suffix || ends_with s suffix

abbrev file_reports : File → List ℕ
file_reports f =
    if not (str_eq f.package_name (str "main"))
    then []
    else if not (ends_with f.file_name (str ".go"))
    then []
    else (inspect_node f.tree false).1

-- run: the reports, file by file.
pub run_exitcheck : List File → List ℕ
run_exitcheck [] = []
run_exitcheck (f ∷ fs) = file_reports f ++ run_exitcheck fs

abbrev has_prefix : Str → Str → Bool
has_prefix s [] = true
has_prefix [] (p ∷ prefix) = false
has_prefix (c ∷ s) (p ∷ prefix) = c == p && has_prefix s prefix

abbrev no_lint_prefix : Str
no_lint_prefix = str "//lint:file-ignore "

abbrev code_generated_by_prefix : Str
code_generated_by_prefix = str "// Code generated by "

abbrev is_skipping : Str → Bool
is_skipping text =
    any (λ prefix. has_prefix text prefix && ltb (length prefix) (length text))
      (no_lint_prefix ∷ code_generated_by_prefix ∷ [])

-- The first comment group, if there is one, has a comment that skips the file.
pub is_skipped : List (List Str) → Bool
is_skipped [] = false
is_skipped (group ∷ groups) = any is_skipping group

pub kept_files : List File → List File
kept_files [] = []
kept_files (f ∷ fs) = let rest = kept_files fs in if is_skipped f.comments then rest else f ∷ rest

-- Wrap: the real run on the files that are left, or, where none is, no run.
pub wrapped_run : {R : Type 0} → R → (List File → R) → List File → R
wrapped_run nothing real_run files = elim (kept_files files) [
  | [] ↦ nothing
  | f ∷ fs ↦ real_run (f ∷ fs)
]
