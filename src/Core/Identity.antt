-- ===== src/Core/Identity.antt =====
-- packages/core/src/intermediate-representation/symbol-identity.ts, types.ts, call-edge.ts.
use symnav.Prelude.{ℕ, Option, List, Text}

pub record SymbolPathSegment : Type 0 where
  pub name : Text
  pub disambiguator : Option ℕ

pub record SymbolIdentity : Type 0 where
  pub file : Text
  pub segments : List SymbolPathSegment

-- Lines are counted from 1, and both ends belong to the range.
pub record LineRange : Type 0 where
  pub start_line : ℕ
  pub end_line : ℕ

pub record Header : Type 0 where
  pub start_line : ℕ
  pub lines : List Text

pub data SymbolRole : Type 0 where
  container callable value type : SymbolRole

pub record SymbolKind : Type 0 where
  pub role : SymbolRole
  pub native_label : Text

pub data EdgeConfidence : Type 0 where
  certain possible : EdgeConfidence
