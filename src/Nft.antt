-- ===== src/Nft.antt =====
-- internal/backend/nft/compile.go: the ruleset that is sent to the kernel.
pub mod Expr
pub mod Match
pub mod Intervals
pub mod Compiled
pub mod Ifaces
pub mod Sets
pub mod Rules
pub mod UserRules
pub mod Fixed
pub mod Nat
pub mod Compile
pub mod Frame
pub mod Closed
pub mod Ids
pub mod PortMatch
pub mod Active
pub mod Swept
pub mod Accepts
pub mod Own
