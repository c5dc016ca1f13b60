-- ===== src/Obsclient.antt =====
-- internal/obsclient: the HTTP client of one target and the types of the target's answers.
pub mod Net
pub mod Client
pub mod Auth
pub mod FlexNumber
pub mod Types
pub mod Apis
pub mod DtStats
pub mod Flux
pub mod Obsclienttest
