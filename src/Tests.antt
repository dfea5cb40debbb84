-- ===== src/Tests.antt =====
-- Runs of the model on concrete inputs, and the theorems at such inputs.
mod Blob
mod Format
mod Guids
mod Names
mod Sql
mod Queries
mod Selects
mod Strings
mod Values
