-- ===== src/Examples.antt =====
-- The theorems at concrete inputs.
mod Target
mod Floats
mod Escapes
mod World
mod Exporter
mod Probing
mod Program
mod Series
mod Orders
mod Fixtures
mod Texts
mod Strict
mod Auth
mod Threads
mod Numbers
