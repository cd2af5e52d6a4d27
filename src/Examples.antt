-- ===== src/Examples.antt =====
-- Tests of the definitions, and the theorems at concrete inputs.
pub mod Toy
pub mod Versions
pub mod Chain
pub mod Envelope
mod Manifest
pub mod Verifier
mod Federation
pub mod Zip
pub mod Reader
mod Keys
mod Contents
mod Lineage
