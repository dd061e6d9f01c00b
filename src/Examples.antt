-- ===== src/Examples.antt =====
-- The theorems at concrete inputs, with the test data they share.
mod Boards
mod Buses
mod Gates
mod Journals
mod Hubs
mod Operators
mod ConflictBoards
mod Agents
mod Rosters
mod Costs
mod Cores
mod Views
mod Clients
mod Watches
mod Addresses
