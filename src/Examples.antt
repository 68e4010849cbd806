-- ===== src/Examples.antt =====
-- Concrete inputs for the theorems, and the theorems at them.
mod World
mod Numbers
mod Policies
mod Macaroons
mod Records
mod Chains
mod Logs
mod Requests
mod Messages
mod Issuing
mod Brokering
mod Pages
mod Devices
