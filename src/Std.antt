-- ===== src/Std.antt =====
-- What the program uses of Go's standard library: strconv and net/netip.
pub mod Strconv
pub mod Decimal
pub mod Netip
pub mod Utf8
pub mod Quote
pub mod Flag
pub mod Strings
pub mod Trim
pub mod OneLine
