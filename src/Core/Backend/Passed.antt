-- ===== src/Core/Backend/Passed.antt =====
-- What a candidate that became the index has passed.
use symnav.Prelude.{
  ◌≡◌, ◌==◌, length, sym, ap, ◌∙◌, Bool, true, false, not, List, [], ◌∷◌, arith, Result, ok, err,
  ◌>>=◌, >>=-eq-ok, throw_if-eq-ok, ok-injective,
}
use symnav.Prelude.Map.{Map, values}
use symnav.Core.Overview.{SymbolOverviewNode}
use symnav.Core.Backend.{
  BackendError, RevisionedBackendPreparedFile, RevisionedBackendPreparationRequest,
  RevisionedBackendIndex, set_files,
}
use symnav.Core.Backend.Building.{
  declarations_of, index_with, add_declarations, empty_index, add_file, add_files, build_index,
}
use symnav.Core.Backend.Candidate.{
  collect_prepared, check_changes, same_keys, candidate_files, candidate_index,
}

module _ {D : Type 0} where
  pub add_file-by_relative_path :
      (previous : RevisionedBackendIndex D) (p : RevisionedBackendPreparedFile D)
      (index next : RevisionedBackendIndex D)
      → add_file previous p index ≡ ok next
      → next.by_relative_path ≡ index.by_relative_path
  unfolding add_file index_with
  add_file-by_relative_path previous p index next added =
      kept_files (add_declarations (declarations_of previous p) index.declarations_by_identity)
        added
    where
      kept_files :
          (r : Result BackendError (Map (List SymbolOverviewNode)))
          → (r >>= λ by_identity. ok (index_with previous p index by_identity)) ≡ ok next
          → next.by_relative_path ≡ index.by_relative_path
      kept_files (ok m) h = ap (λ i. i.by_relative_path) (sym (ok-injective h))
      kept_files (err e) h = cc

  pub add_files-by_relative_path :
      (previous : RevisionedBackendIndex D) (ps : List (RevisionedBackendPreparedFile D))
      (index next : RevisionedBackendIndex D)
      → add_files previous ps index ≡ ok next
      → next.by_relative_path ≡ index.by_relative_path
  unfolding add_files
  add_files-by_relative_path previous [] index next added = cc
  add_files-by_relative_path previous (p ∷ ps) index next added =
      through (>>=-eq-ok (add_file previous p index) _ added)
        (λ middle. add_files-by_relative_path previous ps middle next)
    where
      through :
          ((middle : RevisionedBackendIndex D) × (add_file previous p index ≡ ok middle)
            × (add_files previous ps middle ≡ ok next))
          → ((middle : RevisionedBackendIndex D)
              → add_files previous ps middle ≡ ok next
              → next.by_relative_path ≡ middle.by_relative_path)
          → next.by_relative_path ≡ index.by_relative_path
      through (middle, first, later) rest =
          rest middle later ∙ add_file-by_relative_path previous p index middle first

  pub build_index-by_relative_path :
      (m : Map (RevisionedBackendPreparedFile D)) (previous next : RevisionedBackendIndex D)
      → build_index m previous ≡ ok next
      → next.by_relative_path ≡ m
  unfolding build_index
  build_index-by_relative_path m previous next built =
      add_files-by_relative_path previous (values m) (empty_index m) next built

  -- What a candidate passed.
  abbrev pub Passed :
      RevisionedBackendIndex D
      → RevisionedBackendPreparationRequest D
      → List (RevisionedBackendPreparedFile D)
      → RevisionedBackendIndex D
      → Type 0
  Passed index request ps next =
      (out : Map (RevisionedBackendPreparedFile D)) × (collect_prepared
          (set_files request.effective_files []) ps []
        ≡ ok out)
      × (check_changes out request.changes ≡ ok tt)
      × (same_keys (candidate_files index request ps) (set_files request.effective_files []) ≡ true)
      × (build_index (candidate_files index request ps) index ≡ ok next)

  pub candidate_index-Passed :
      (index : RevisionedBackendIndex D) (request : RevisionedBackendPreparationRequest D)
      (ps : List (RevisionedBackendPreparedFile D)) (next : RevisionedBackendIndex D)
      → candidate_index index request ps ≡ ok next
      → Passed index request ps next
  unfolding candidate_index
  candidate_index-Passed index request ps next built =
      let (sized, after_size) =
        throw_if-eq-ok
          (not (length (set_files request.effective_files []) == length request.effective_files)) _
          _ built in
      let (out, collected, after_collection) =
        >>=-eq-ok (collect_prepared (set_files request.effective_files []) ps []) _ after_size in
      let (u, checked, after_changes) =
        >>=-eq-ok (check_changes out request.changes) _ after_collection in
      let (keyed, built_index) =
        throw_if-eq-ok
          (not
            (same_keys (candidate_files index request ps) (set_files request.effective_files [])))
          _ _ after_changes in
      (
        out,
        collected,
        checked,
        holds (same_keys (candidate_files index request ps) (set_files request.effective_files []))
            keyed,
        built_index,
      )
    where
      holds : (b : Bool) → not b ≡ false → b ≡ true
      holds b h = ground arith
