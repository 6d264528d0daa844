-- ===== src/Report.antt =====
-- internal/analyzer/types.go: the report that every stage of a reconcile reads and changes.
-- A record holds the fields that the modelled stages use, under the source's names. `F` is float64,
-- a replica count (int32, never negative in the API) is a natural number, and a time is the number
-- of nanoseconds since Go's zero time, so that `IsZero` is a test for 0.
-- A string that only ever holds one of a few literals of the code is an enumeration.
mod Plan
mod Signals
mod Workload
unfoldable pub use Plan.*
unfoldable pub use Signals.*
unfoldable pub use Workload.*
