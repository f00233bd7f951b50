-- ===== src/Golang.antt =====
-- What the program uses of Go's standard library: text as bytes, time in
-- nanoseconds, IP addresses, and results with an error.
pub mod Strings
pub mod Time
pub mod Net
pub mod Results
