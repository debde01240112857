-- ===== src/Tests.antt =====
-- Concrete runs: each property at an input where its hypotheses hold.
mod Requests
mod Stores
mod DeltaStores
mod IdLists
mod Polls
mod Memory
mod Workers
