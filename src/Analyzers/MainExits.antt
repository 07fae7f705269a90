-- ===== src/Analyzers/MainExits.antt =====
-- What the analyzer is to report (internal/analyzers/exitcheck/exitcheck.go): the calls of os.Exit in
-- functions with the name main.
use shorty.Base.{
  str, ℕ, ◌≡◌, Bool, true, false, not, ◌&&◌, ◌||◌, List, [], ◌∷◌, ◌++◌, str_eq, if◌then◌else◌,
}
use shorty.Analyzers.{
  Shape, func_decl, expr_stmt, other, Node, node, Nodes, leaf, child, call_expr, selector_expr,
  ident, File, ends_with,
}
use shorty.Analyzers.Skipping.{asks_to_skip}

-- The position of a statement `os.Exit(…)`: an ExprStmt of a call of a selector with the name Exit on
-- an identifier with the name os.
abbrev pub exits_here : Shape → Nodes → List ℕ
exits_here expr_stmt
      (child
        (node (call_expr pos) (child (node (selector_expr sel) (child (node (ident pkg) _) _)) _))
        _) =
    if str_eq sel (str "Exit") && str_eq pkg (str "os") then pos ∷ [] else []
exits_here _ _ = []

abbrev pub is_func : Shape → Bool
is_func (func_decl name) = true
is_func _ = false

-- Every such statement of a tree, in any function.
unfoldable mutual
  pub exits : Node → List ℕ
  exits (node s kids) = exits_here s kids ++ exits_all kids

  pub exits_all : Nodes → List ℕ
  exits_all leaf = []
  exits_all (child n ns) = exits n ++ exits_all ns

-- There is no function declaration in the tree.
unfoldable mutual
  pub funcless : Node → Bool
  funcless (node s kids) = not (is_func s) && funcless_all kids

  pub funcless_all : Nodes → Bool
  funcless_all leaf = true
  funcless_all (child n ns) = funcless n && funcless_all ns

abbrev pub is_empty : List ℕ → Bool
is_empty [] = true
is_empty (x ∷ xs) = false

-- The declarations of a file, as Go has them: a function declaration has none inside; and no other
-- declaration has a call of os.Exit that is a statement, in a function literal.
unfoldable pub is_plain : Nodes → Bool
is_plain leaf = true
is_plain (child (node (func_decl name) body) ns) = funcless_all body && is_plain ns
is_plain (child d ns) = funcless d && is_empty (exits d) && is_plain ns

-- What is to be reported of them: the calls in the functions with the name main.
unfoldable pub main_exits : Nodes → List ℕ
main_exits leaf = []
main_exits (child (node (func_decl name) body) ns) =
    (if str_eq name (str "main") then exits_all body else []) ++ main_exits ns
main_exits (child d ns) = main_exits ns

abbrev pub decls_of : Node → Nodes
decls_of (node s decls) = decls

abbrev pub shape_of : Node → Shape
shape_of (node s decls) = s

-- A file of Go: its tree is a node of its own, with declarations.
abbrev pub IsPlainFile : File → Type 0
IsPlainFile f = (shape_of f.tree ≡ other) × (is_plain (decls_of f.tree) ≡ true)

-- What is to be reported of a file.
abbrev pub file_exits : File → List ℕ
file_exits f =
    if asks_to_skip f.comments
      || not (str_eq f.package_name (str "main"))
      || not (ends_with f.file_name (str ".go"))
    then []
    else main_exits (decls_of f.tree)
