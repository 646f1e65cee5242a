-- ===== src/Tests.antt =====
-- Runs of the model at concrete inputs, with the crates instantiated by small functions.
mod Lives
mod Exchanges
mod Deliveries
mod Meetings
mod Crates
mod Devices
mod Messages
mod Stores
mod Files
mod Clients
mod Nodes
mod Wire
mod Starts
mod Resumes
mod Commands
mod Syncs
