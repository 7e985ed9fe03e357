-- ===== src/Tests.antt =====
-- Runs of the definitions on concrete keys, trees and storages, and the theorems applied to them.
mod Structures
mod Memory
mod Storage
mod Utilities
mod WholeTrees
mod Traversals
mod Searches
mod Registrations
mod Frames
mod Histories
mod Memoized
