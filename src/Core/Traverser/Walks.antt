-- ===== src/Core/Traverser/Walks.antt =====
-- The paths that a traversal gives are walks along the backend's edges.
use symnav.Prelude.{
  ◌≡◌, refl, subst, Bool, true, false, ◌⊎◌, inl, inr, Option, none, some, List, [], ◌∷◌, arith,
  Text, text_eq, text_eq_iff, any, All, Bool-cases, ok, if◌then◌else◌,
}
use symnav.Prelude.Map
use symnav.Prelude.Map.{Map, values}
use symnav.Core.Identity.{SymbolIdentity}
use symnav.Core.Segment.{includes_separator, join, format_symbol_path, format_symbol_identity}
use symnav.Core.Overview.{SymbolOverviewNode, identity_of, CallEdge}
use symnav.Core.Traverser.{
  GraphPath, EdgeFinder, Traversal, name_of, takes_place, collapse_from, collapse_duplicate_edges,
  to_graph_path_step, Found, found_at,
}

abbrev pub IsAmong : CallEdge → List CallEdge → Type 0
IsAmong e [] = ⊥
IsAmong e (x ∷ xs) = (e ≡ x) ⊎ IsAmong e xs

some-injective : {A : Type 0} {a b : A} → ◌≡◌ {A = Option A} (some a) (some b) → a ≡ b
some-injective h = cc

-- A symbol that can be named: the file has no separator.
abbrev pub IsNamable : SymbolOverviewNode → Type 0
IsNamable s = includes_separator (identity_of s).file ≡ false

-- The backend gives only symbols that can be named.
abbrev pub GivesNamable : EdgeFinder → Type 0
GivesNamable find_edges = (i : SymbolIdentity) → All (λ e. IsNamable e.symbol) (find_edges i)

-- An edge that the backend gives for an identity of the name.
abbrev pub LeavesFrom : EdgeFinder → Text → CallEdge → Type 0
LeavesFrom find_edges name e =
    IsNamable e.symbol
    × (i : SymbolIdentity) × (format_symbol_identity i ≡ ok name)
    × IsAmong e (find_edges i)

-- A walk from the symbol of a name, when the names in `seen` were passed. It goes along the edges of
-- the backend, through new symbols only, but that the last step may close a cycle, and it says so.
pub data Walk (find_edges : EdgeFinder) : Text → List Text → GraphPath → Type 0 where
  stay : {name : Text} {seen : List Text} → Walk find_edges name seen []
  close :
      {name : Text} {seen : List Text} (e : CallEdge) (next : Text)
      → LeavesFrom find_edges name e
      → name_of e.symbol ≡ ok next
      → any (text_eq next) seen ≡ true
      → Walk find_edges name seen (to_graph_path_step e true ∷ [])
  go :
      {name : Text} {seen : List Text} {rest : GraphPath} (e : CallEdge) (next : Text)
      → LeavesFrom find_edges name e
      → name_of e.symbol ≡ ok next
      → any (text_eq next) seen ≡ false
      → Walk find_edges next (next ∷ seen) rest
      → Walk find_edges name seen (to_graph_path_step e false ∷ rest)

pub namable-name : (s : SymbolOverviewNode) → IsNamable s → (name : Text) × (name_of s ≡ ok name)
unfolding format_symbol_identity
namable-name s h =
    (join ((identity_of s).file ∷ format_symbol_path (identity_of s).segments ∷ []), rw h refl)

module _ (Q : CallEdge → Type 0) where
  All-set :
      (k : Text) (e : CallEdge) (m : Map CallEdge)
      → Q e
      → All Q (values m)
      → All Q (values (Map.set k e m))
  unfolding Map.set
  All-set k e [] q h = (q, tt)
  All-set k e ((j, w) ∷ m) q h = ground (arith, All-set k e m q h.1)

  All-if :
      (b : Bool) (m n : Map CallEdge)
      → All Q (values m)
      → All Q (values n)
      → All Q (values (if b then m else n))
  All-if true m n hm hn = hm
  All-if false m n hm hn = hn

  module _ (namable : (e : CallEdge) → Q e → IsNamable e.symbol) where
    collapse_from-All :
        (found : Map CallEdge) (edges : List CallEdge)
        → All Q (values found)
        → All Q edges
        → (m : Map CallEdge) × (collapse_from found edges ≡ ok m) × All Q (values m)
    unfolding collapse_from
    collapse_from-All found [] h q = (found, refl, h)
    collapse_from-All found (edge ∷ edges) h q =
        named (namable-name edge.symbol (namable edge q.0))
          (λ m hm. collapse_from-All m edges hm q.1)
      where
        named :
            ((name : Text) × (name_of edge.symbol ≡ ok name))
            → ((m : Map CallEdge)
                → All Q (values m)
                → (n : Map CallEdge) × (collapse_from m edges ≡ ok n) × All Q (values n))
            → (m : Map CallEdge) × (collapse_from found (edge ∷ edges) ≡ ok m) × All Q (values m)
        named (name, e) next = rw e (
            next (if takes_place (Map.get name found) edge then Map.set name edge found else found)
              (All-if (takes_place (Map.get name found) edge) (Map.set name edge found) found
                (All-set name edge found q.0 h) h))

    collapse-All :
        (edges : List CallEdge)
        → All Q edges
        → (kept : List CallEdge) × (collapse_duplicate_edges edges ≡ ok kept) × All Q kept
    unfolding collapse_duplicate_edges
    collapse-All edges q = given (collapse_from-All [] edges tt q)
      where
        given :
            ((m : Map CallEdge) × (collapse_from [] edges ≡ ok m) × All Q (values m))
            → (kept : List CallEdge) × (collapse_duplicate_edges edges ≡ ok kept) × All Q kept
        given (m, e, h) = (values m, rw e refl, h)

module _ (find_edges : EdgeFinder) (gives : GivesNamable find_edges) where
  -- The edges that are kept for a name leave from it.
  abbrev pub IsCache : Map (List CallEdge) → Type 0
  IsCache cache =
      (name : Text) (edges : List CallEdge)
      → Map.get name cache ≡ some edges
      → All (LeavesFrom find_edges name) edges

  among-LeavesFrom :
      (i : SymbolIdentity) (name : Text) (edges : List CallEdge)
      → format_symbol_identity i ≡ ok name
      → All (λ e. IsNamable e.symbol) edges
      → ((e : CallEdge) → IsAmong e edges → IsAmong e (find_edges i))
      → All (LeavesFrom find_edges name) edges
  among-LeavesFrom i name [] named h sub = tt
  among-LeavesFrom i name (e ∷ es) named h sub = (
    (h.0, i, named, sub e (inl refl)),
    among-LeavesFrom i name es named h.1 (λ d m. sub d (inr m)),
  )

  set-IsCache :
      (name : Text) (edges : List CallEdge) (cache : Map (List CallEdge))
      → IsCache cache
      → All (LeavesFrom find_edges name) edges
      → IsCache (Map.set name edges cache)
  set-IsCache name edges cache h new other found e = elim (Bool-cases (text_eq name other)) [
    | inl same ↦
        subst (λ es. All (LeavesFrom find_edges other) es) (this same)
          (subst (λ n. All (LeavesFrom find_edges n) edges) ((text_eq_iff name other).0 same) new)
    | inr different ↦ h other found (kept different)
  ]
    where
      this : text_eq name other ≡ true → edges ≡ found
      this same = some-injective (ground (arith, Map.get-set name other edges cache, e))

      kept : text_eq name other ≡ false → Map.get other cache ≡ some found
      kept different = ground (arith, Map.get-set name other edges cache, e)

  pub found_at-IsFound :
      (i : SymbolIdentity) (name : Text) (kept : Option (List CallEdge)) (t : Traversal)
      → format_symbol_identity i ≡ ok name
      → Map.get name t.one_hop_edges_by_identity ≡ kept
      → IsCache t.one_hop_edges_by_identity
      → (f : Found) × (found_at find_edges i name kept t ≡ ok f)
        × (f.traversal.paths ≡ t.paths)
        × All (LeavesFrom find_edges name) f.edges
        × IsCache f.traversal.one_hop_edges_by_identity
  unfolding found_at
  found_at-IsFound i name (some edges) t named e h =
      (record { edges = edges; traversal = t }, refl, refl, h name edges e, h)
  found_at-IsFound i name none t named e h = given (
      collapse-All (LeavesFrom find_edges name) (λ d q. q.0) (find_edges i)
        (among-LeavesFrom i name (find_edges i) named (gives i) (λ d m. m)))
    where
      given :
          ((kept : List CallEdge) × (collapse_duplicate_edges (find_edges i) ≡ ok kept)
            × All (LeavesFrom find_edges name) kept)
          → (f : Found) × (found_at find_edges i name none t ≡ ok f)
            × (f.traversal.paths ≡ t.paths)
            × All (LeavesFrom find_edges name) f.edges
            × IsCache f.traversal.one_hop_edges_by_identity
      given (kept, c, q) = (
        record {
          edges = kept;
          traversal = record t {
            one_hop_edges_by_identity = Map.set name kept t.one_hop_edges_by_identity;
          };
        },
        rw c refl,
        refl,
        q,
        set-IsCache name kept t.one_hop_edges_by_identity h q,
      )
