-- ===== src/Tests.antt =====
-- Concrete runs, and the theorems at concrete inputs.
mod Codecs
mod Profiler
mod Strings
mod Text
mod Patterns
mod Objects
mod Timers
mod Buffers
mod Closures
mod Options
mod Checksums
mod Tables
