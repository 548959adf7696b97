-- ===== src/Examples.antt =====
-- The theorems at concrete inputs, and runs of the definitions that can be followed in the source.
mod Table
mod Wire
mod Addresses
mod Parsers
mod Monitors
mod Scan
mod Line
mod Network
