-- ===== src/Tests.antt =====
-- Concrete inputs on which the theorems are applied.
mod Growing
mod Sample
mod Lookups
mod Libraries
mod Images
mod Api
mod Libdl
mod Loading
mod Machine
mod Lives
mod Relocations
mod Program
mod Cycle
