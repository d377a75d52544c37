-- ===== src/Tests.antt =====
-- Concrete runs: each theorem at an input that meets its hypotheses, and tests of the definitions.
mod Relay
mod Connection
mod InboxHub
mod Services
mod Backend
mod Session
mod Login
mod Account
mod Start
mod Chain
mod Process
mod Sockets
