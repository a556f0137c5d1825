-- ===== src/Runs.antt =====
-- Runs of the theorems at concrete inputs.
mod Names
mod Store
mod Versions
mod Suffixes
mod Numbers
mod Fuse
mod Signatures
mod Imports
mod Files
mod Links
