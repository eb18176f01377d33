-- ===== src/Core.antt =====
-- packages/core: what a symbol is, how a target names it, and the results of navigation.
pub mod Decimal
pub mod Identity
pub mod Segment
pub mod Target
pub mod Diagnostic
pub mod Overview
pub mod Backend
pub mod Pagination
pub mod Traverser
pub mod GraphResult
pub mod Disambiguators
pub mod Resolver
pub mod Expander
