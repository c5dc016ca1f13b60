-- ===== src/Exporter.antt =====
-- cmd/obs-exporter/main.go: the handler of /probe, the clients that it keeps, and `main`.
pub mod Clients
pub mod Handler
pub mod Program
pub mod Start
