-- ===== src/Analyzers/Exits.antt =====
-- Which calls the wrapped analyzer reports (internal/analyzers/exitcheck/exitcheck.go,
-- internal/analyzers/nolint/nolint.go).
use shorty.Base.{
  Str, str, str_eq_iff, ℕ, ◌≡◌, refl, ap, ◌∙◌, Bool, true, false, not, ◌&&◌, List, [], ◌∷◌, ◌++◌,
  map, concat, All, arith, str_eq, if◌then◌else◌, Bool-cases, inl, inr,
}
use mathlib.Core.Bool.{and-eq-true_iff}
use shorty.Analyzers.{
  Shape, func_decl, expr_stmt, other, Node, node, Nodes, leaf, child, call_expr, selector_expr,
  ident, is_exported, package_exit, called_exit, inspect_expr, inspect_one, inspect_node,
  inspect_nodes, File, file_reports, run_exitcheck, is_skipped, kept_files, wrapped_run,
}
use shorty.Analyzers.Skipping.{is_skipped_lem}
use shorty.Analyzers.MainExits.{
  exits_here, is_func, exits, exits_all, funcless, funcless_all, is_empty, is_plain, main_exits,
  decls_of, shape_of, IsPlainFile, file_exits,
}

package_exit_lem :
    (sel : Str) (pos : ℕ) (x args rest : Nodes)
    → (if not (is_exported sel) then [] else package_exit sel pos x)
      ≡ exits_here expr_stmt
          (child (node (call_expr pos) (child (node (selector_expr sel) x) args)) rest)
package_exit_lem sel pos (child (node (ident pkg) a) b) args rest =
    elim (Bool-cases (str_eq sel (str "Exit"))) [
      | inl e ↦
          let exported : is_exported sel ≡ true =
            ap is_exported ((str_eq_iff sel (str "Exit")).0 e) in
          rw exported
      | inr e ↦ ground arith
    ]
package_exit_lem sel pos _ args rest = ground arith

called_exit_lem : (x : Nodes) → called_exit x ≡ exits_here expr_stmt x
called_exit_lem (child (node (call_expr pos) (child (node (selector_expr sel) x) args)) rest) =
    package_exit_lem sel pos x args rest
called_exit_lem _ = refl

abbrev when : Bool → List ℕ → List ℕ
when b xs = if b then xs else []

when-append : (b : Bool) (xs ys : List ℕ) → when b xs ++ when b ys ≡ when b (xs ++ ys)
when-append true xs ys = refl
when-append false xs ys = refl

inspect_one-when :
    (s : Shape) (kids : Nodes) (inside : Bool)
    → is_func s ≡ false
    → inspect_one s kids inside ≡ (inside, when inside (exits_here s kids))
unfolding inspect_one inspect_expr
inspect_one-when (func_decl name) kids inside h = cc h
inspect_one-when expr_stmt kids true h = ap (λ xs. (true, xs)) (called_exit_lem kids)
inspect_one-when expr_stmt kids false h = refl
inspect_one-when _ kids true h = refl
inspect_one-when _ kids false h = refl

not-true : (b : Bool) → not b ≡ true → b ≡ false
not-true true h = cc h
not-true false h = refl

mutual
  unfolding inspect_node exits funcless

  inspect_node-funcless :
      (n : Node) (inside : Bool)
      → funcless n ≡ true
      → inspect_node n inside ≡ (inside, when inside (exits n))
  inspect_node-funcless (node s kids) inside h =
      let both = (and-eq-true_iff _ _).0 h in
      let none_here : is_func s ≡ false = not-true (is_func s) both.0 in
      rw
        (
          inspect_one-when s kids inside none_here,
          inspect_nodes-funcless kids inside both.1,
          when-append inside (exits_here s kids) (exits_all kids),
        )
        refl

  inspect_nodes-funcless :
      (ns : Nodes) (inside : Bool)
      → funcless_all ns ≡ true
      → inspect_nodes ns inside ≡ (inside, when inside (exits_all ns))
  inspect_nodes-funcless leaf true h = refl
  inspect_nodes-funcless leaf false h = refl
  inspect_nodes-funcless (child n ns) inside h =
      let both = (and-eq-true_iff _ _).0 h in
      rw
        (
          inspect_node-funcless n inside both.0,
          inspect_nodes-funcless ns inside both.1,
          when-append inside (exits n) (exits_all ns),
        )
        refl

empty_of : (xs : List ℕ) → is_empty xs ≡ true → xs ≡ []
empty_of [] h = refl
empty_of (x ∷ xs) h = cc h

when-[] : (b : Bool) → when b [] ≡ []
when-[] true = refl
when-[] false = refl

other_decl :
    (d : Node) (ns : Nodes) (inside : Bool)
    → funcless d && is_empty (exits d) && is_plain ns ≡ true
    → (inspect_nodes (child d ns) inside).1 ≡ (inspect_nodes ns inside).1
unfolding inspect_nodes
other_decl d ns inside h =
    let parts = (and-eq-true_iff _ _).0 h in
    let first = (and-eq-true_iff _ _).0 parts.0 in
    rw (inspect_node-funcless d inside first.0, empty_of (exits d) first.1, when-[] inside) refl

plain_reports :
    (decls : Nodes) (inside : Bool)
    → is_plain decls ≡ true
    → (inspect_nodes decls inside).1 ≡ main_exits decls
unfolding is_plain main_exits inspect_nodes inspect_one
plain_reports leaf inside h = refl
plain_reports (child (node (func_decl name) body) ns) inside h =
    let both = (and-eq-true_iff _ _).0 h in
    rw (inspect_nodes-funcless body (str_eq name (str "main")) both.0) (
      ap (λ rest. when (str_eq name (str "main")) (exits_all body) ++ rest)
        (plain_reports ns (str_eq name (str "main")) both.1))
plain_reports (child d ns) inside h =
    other_decl d ns inside h ∙ plain_reports ns inside ((and-eq-true_iff _ _).0 h).1

tree_reports :
    (t : Node)
    → shape_of t ≡ other
    → is_plain (decls_of t) ≡ true
    → (inspect_node t false).1 ≡ main_exits (decls_of t)
unfolding inspect_node inspect_one
tree_reports (node s decls) h plain = rw h (plain_reports decls false plain)

file_reports_lem :
    (f : File)
    → IsPlainFile f
    → (if is_skipped f.comments then [] else file_reports f) ≡ file_exits f
file_reports_lem f (shape, plain) =
    ground (arith, is_skipped_lem f.comments, tree_reports f.tree shape plain)

run-kept_files :
    (files : List File)
    → All IsPlainFile files
    → run_exitcheck (kept_files files) ≡ concat (map file_exits files)
unfolding run_exitcheck kept_files
run-kept_files [] h = refl
run-kept_files (f ∷ fs) (plain, h) =
    let here = file_reports_lem f plain in
    let rest = run-kept_files fs h in
    elim (Bool-cases (is_skipped f.comments)) [
      | inl skipped ↦
          rw skipped (rest ∙ ap (λ xs. xs ++ concat (map file_exits fs)) (rw skipped at here))
      | inr kept ↦ rw kept (rw rest (ap (λ xs. xs ++ concat (map file_exits fs)) (rw kept at here)))
    ]

wrapped-run :
    (files : List File) → wrapped_run [] run_exitcheck files ≡ run_exitcheck (kept_files files)
unfolding wrapped_run run_exitcheck
wrapped-run files = go (kept_files files)
  where
    go :
        (kept : List File)
        → (elim kept [ [] ↦ [] | f ∷ fs ↦ run_exitcheck (f ∷ fs) ]) ≡ run_exitcheck kept
    go [] = refl
    go (f ∷ fs) = refl

-- On files whose function declarations are not nested, and whose other declarations have no call of
-- os.Exit that is a statement, the wrapped analyzer reports, in their order, exactly the statements
-- `os.Exit(…)` in functions with the name main, in the files of package main whose name ends in .go
-- and whose first comment group has no comment that goes on after `//lint:file-ignore ` or
-- `// Code generated by `.
pub exits_reported :
    (files : List File)
    → All IsPlainFile files
    → wrapped_run [] run_exitcheck files ≡ concat (map file_exits files)
exits_reported files h = wrapped-run files ∙ run-kept_files files h
