-- ===== src/Strconv.antt =====
-- The parts of Go's `strconv`, `strings`, `fmt` and `encoding/hex` that gserver/internal/gsbd/dataid.go
-- calls, over byte strings. Errors carry no detail, since the callers only test for one.
pub mod Integer
pub mod Text
