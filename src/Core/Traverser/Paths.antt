-- ===== src/Core/Traverser/Paths.antt =====
-- A traversal succeeds, and its paths are walks of at most the depth.
use mathlib.Core.List.{append_assoc}
use symnav.Prelude.{
  ◌≡◌, refl, sym, subst, ℕ, zero, suc, ◌≤◌, Bool, true, false, List, [], ◌∷◌, ◌++◌, arith, Text,
  text_eq, length, any, All, All-append, ok, ◌>>=◌, sort_by, insert_by,
}
use mathlib.Core.List.{append-nil}
use symnav.Prelude.Map
use symnav.Prelude.Map.{Map}
use symnav.Core.Overview.{SymbolOverviewNode, identity_of, CallEdge}
use symnav.Core.Traverser.{
  GraphPath, EdgeFinder, Traversal, Failing, name_of, to_graph_path_step, Found, push_path,
  end_path, extend_each, extend_edges, found_at, find_collapsed_edges, extend, path_before,
  traverse,
}
use symnav.Core.Traverser.Walks.{
  IsNamable, GivesNamable, LeavesFrom, Walk, namable-name, IsCache, found_at-IsFound,
}

module _ (find_edges : EdgeFinder) (gives : GivesNamable find_edges) (P : GraphPath → Type 0) where
  abbrev IsGood : Traversal → Type 0
  IsGood t = All P t.paths × IsCache find_edges gives t.one_hop_edges_by_identity

  abbrev Succeeds : Failing Traversal → Type 0
  Succeeds r = (u : Traversal) × (r ≡ ok u) × IsGood u

  -- Every walk of at most `left` steps completes the path.
  abbrev Completes : ℕ → Text → GraphPath → List Text → Type 0
  Completes left name steps seen =
      (tail : GraphPath) → Walk find_edges name seen tail → length tail ≤ left → P (steps ++ tail)

  push-IsGood : (path : GraphPath) (t : Traversal) → P path → IsGood t → IsGood (push_path path t)
  unfolding push_path
  push-IsGood path t p h = (All-append P t.paths (path ∷ []) h.0 (p, tt), h.1)

  step-Completes :
      (left : ℕ) (name next : Text) (steps : GraphPath) (seen : List Text) (e : CallEdge)
      → Completes (suc left) name steps seen
      → LeavesFrom find_edges name e
      → name_of e.symbol ≡ ok next
      → any (text_eq next) seen ≡ false
      → Completes left next (steps ++ to_graph_path_step e false ∷ []) (next ∷ seen)
  step-Completes left name next steps seen e h leaves named new tail walk short =
      subst P (sym (append_assoc steps (to_graph_path_step e false ∷ []) tail)) (
        h (to_graph_path_step e false ∷ tail) (Walk.go e next leaves named new walk)
          (omega (arith, short)))

  -- What the call of `extend` for a next symbol has to give.
  abbrev Visits :
      ℕ → (SymbolOverviewNode → GraphPath → List Text → Traversal → Failing Traversal) → Type 0
  Visits left visit =
      (s : SymbolOverviewNode) (name : Text) (steps : GraphPath) (seen : List Text) (t : Traversal)
      → name_of s ≡ ok name
      → Completes left name steps seen
      → IsGood t
      → Succeeds (visit s steps seen t)

  extend_each-Succeeds :
      (left : ℕ)
      (visit : SymbolOverviewNode → GraphPath → List Text → Traversal → Failing Traversal)
      (name : Text) (steps : GraphPath) (seen : List Text) (edges : List CallEdge) (t : Traversal)
      → Visits left visit
      → Completes (suc left) name steps seen
      → All (LeavesFrom find_edges name) edges
      → IsGood t
      → Succeeds (extend_each visit steps seen edges t)
  unfolding extend_each
  extend_each-Succeeds left visit name steps seen [] t v h q good = (t, refl, good)
  extend_each-Succeeds left visit name steps seen (edge ∷ edges) t v h q good =
      named (namable-name edge.symbol q.0.0)
        (λ u g. extend_each-Succeeds left visit name steps seen edges u v h q.1 g)
    where
      each : Traversal → Failing Traversal
      each u = extend_each visit steps seen edges u

      visited :
          (next : Text)
          → ((u : Traversal) → IsGood u → Succeeds (each u))
          → (r : Failing Traversal) → Succeeds r
          → Succeeds (r >>= each)
      visited next others r (u, e, g) = rw e (others u g)

      by_cycle :
          (next : Text)
          → name_of edge.symbol ≡ ok next
          → ((u : Traversal) → IsGood u → Succeeds (each u))
          → (b : Bool) → any (text_eq next) seen ≡ b
          → Succeeds (elim b [
            | true ↦ each (push_path (steps ++ to_graph_path_step edge true ∷ []) t)
            | false ↦
                visit edge.symbol (steps ++ to_graph_path_step edge false ∷ []) (next ∷ seen) t
                >>= each
          ])
      by_cycle next n others true e =
          others (push_path (steps ++ to_graph_path_step edge true ∷ []) t) (
            push-IsGood (steps ++ to_graph_path_step edge true ∷ []) t
              (h (to_graph_path_step edge true ∷ []) (Walk.close edge next q.0 n e) (omega arith))
              good)
      by_cycle next n others false e =
          visited next others
            (visit edge.symbol (steps ++ to_graph_path_step edge false ∷ []) (next ∷ seen) t)
            (v edge.symbol next (steps ++ to_graph_path_step edge false ∷ []) (next ∷ seen) t n
              (step-Completes left name next steps seen edge h q.0 n e) good)

      named :
          ((next : Text) × (name_of edge.symbol ≡ ok next))
          → ((u : Traversal) → IsGood u → Succeeds (each u))
          → Succeeds (extend_each visit steps seen (edge ∷ edges) t)
      named (next, n) others = rw n (by_cycle next n others (any (text_eq next) seen) refl)

  extend_edges-Succeeds :
      (left : ℕ)
      (visit : SymbolOverviewNode → GraphPath → List Text → Traversal → Failing Traversal)
      (name : Text) (steps : GraphPath) (seen : List Text) (edges : List CallEdge) (t : Traversal)
      → Visits left visit
      → Completes (suc left) name steps seen
      → All (LeavesFrom find_edges name) edges
      → IsGood t
      → Succeeds (extend_edges visit steps seen edges t)
  unfolding extend_edges end_path
  extend_edges-Succeeds left visit name [] seen [] t v h q good = (t, refl, good)
  extend_edges-Succeeds left visit name (s ∷ steps) seen [] t v h q good = (
    push_path (s ∷ steps) t,
    refl,
    push-IsGood (s ∷ steps) t (subst P (append-nil (s ∷ steps)) (h [] Walk.stay (omega arith)))
        good,
  )
  extend_edges-Succeeds left visit name steps seen (edge ∷ edges) t v h q good =
      extend_each-Succeeds left visit name steps seen (edge ∷ edges) t v h q good

  extend-Succeeds : (left : ℕ) → Visits left (extend find_edges left)
  unfolding extend
  extend-Succeeds zero s name steps seen t n h good = (
    push_path steps t,
    refl,
    push-IsGood steps t (subst P (append-nil steps) (h [] Walk.stay (omega arith))) good,
  )
  extend-Succeeds (suc left) s name steps seen t n h good =
      found
        (found_at-IsFound find_edges gives (identity_of s) name
          (Map.get name t.one_hop_edges_by_identity) t n refl good.1)
        (extend-Succeeds left)
    where
      found :
          ((f : Found) × (found_at find_edges
                (identity_of s)
                name
                (Map.get name t.one_hop_edges_by_identity)
                t
              ≡ ok f)
            × (f.traversal.paths ≡ t.paths)
            × All (LeavesFrom find_edges name) f.edges
            × IsCache find_edges gives f.traversal.one_hop_edges_by_identity)
          → Visits left (extend find_edges left)
          → Succeeds (extend find_edges (suc left) s steps seen t)
      found (f, e, same, q, cache) visits =
          unfold find_collapsed_edges in
          rw (n, e)
            (extend_edges-Succeeds left (extend find_edges left) name steps seen f.edges f.traversal
              visits h q (subst (λ ps. All P ps) (sym same) good.0, cache))

All-insert_by :
    (P : GraphPath → Type 0) (before : GraphPath → GraphPath → Bool) (x : GraphPath)
    (xs : List GraphPath)
    → P x
    → All P xs
    → All P (insert_by before x xs)
unfolding insert_by
All-insert_by P before x [] p h = (p, tt)
All-insert_by P before x (y ∷ ys) p h = ground (arith, All-insert_by P before x ys p h.1)

All-sort_by :
    (P : GraphPath → Type 0) (before : GraphPath → GraphPath → Bool) (xs : List GraphPath)
    → All P xs
    → All P (sort_by before xs)
unfolding sort_by
All-sort_by P before [] h = tt
All-sort_by P before (x ∷ xs) h =
    All-insert_by P before x (sort_by before xs) h.0 (All-sort_by P before xs h.1)

-- A traversal from a symbol that can be named, on a backend whose symbols can be named, succeeds at
-- every depth, and each of its paths is a walk from the symbol with no more steps than the depth.
pub traverse-Walk :
    (find_edges : EdgeFinder) (depth : ℕ) (root : SymbolOverviewNode)
    → GivesNamable find_edges
    → IsNamable root
    → (name : Text) × (paths : List GraphPath) × (name_of root ≡ ok name)
      × (traverse find_edges depth root ≡ ok paths)
      × All (λ path. Walk find_edges name (name ∷ []) path × (length path ≤ depth)) paths
traverse-Walk find_edges depth root gives namable = named (namable-name root namable)
  where
    start : Traversal
    start = record { paths = []; one_hop_edges_by_identity = [] }

    IsPath : Text → GraphPath → Type 0
    IsPath name path = Walk find_edges name (name ∷ []) path × (length path ≤ depth)

    sorted :
        (name : Text)
        → name_of root ≡ ok name
        → Succeeds find_edges gives
            (IsPath name)
            (extend find_edges depth root [] (name ∷ []) start)
        → (name : Text) × (paths : List GraphPath) × (name_of root ≡ ok name)
          × (traverse find_edges depth root ≡ ok paths)
          × All (λ path. Walk find_edges name (name ∷ []) path × (length path ≤ depth)) paths
    sorted name n (t, e, good) = (
      name,
      sort_by path_before t.paths,
      n,
      unfold traverse in rw (n, e) refl,
      All-sort_by (IsPath name) path_before t.paths good.0,
    )

    named :
        ((name : Text) × (name_of root ≡ ok name))
        → (name : Text) × (paths : List GraphPath) × (name_of root ≡ ok name)
          × (traverse find_edges depth root ≡ ok paths)
          × All (λ path. Walk find_edges name (name ∷ []) path × (length path ≤ depth)) paths
    named (name, n) = sorted name n (
        extend-Succeeds find_edges gives (IsPath name) depth root name [] (name ∷ []) start n
          (λ tail walk short. (walk, short))
          (tt, λ key edges e. absurd (unfold Map.get in ground (arith, e))))
