-- ===== src/Examples.antt =====
-- The theorems applied to concrete values, and runs of the operations on them.
mod Sets
mod Clocks
mod Addresses
mod Reads
mod Relations
mod Queue
mod Bounds
mod Values
mod Expressions
mod Prefixes
mod Scheduling
