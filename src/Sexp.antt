-- ===== src/Sexp.antt =====
-- Package sexp: source text to generic values. Diagnostics of all packages are in Diag.
pub mod Kind
pub mod Value
pub mod Reader
pub mod Moves
pub mod Total
pub mod Symbols
pub mod Print
mod Tokens
mod Begins
mod Lists
pub mod RoundTrip
