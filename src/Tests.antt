-- ===== src/Tests.antt =====
-- Tests and examples: the definitions on concrete inputs, and the theorems applied to them.
pub mod Sample
pub mod Buses
pub mod Clients
pub mod Crowds
pub mod Entries
pub mod Daemons
pub mod Devices
pub mod Interleavings
pub mod Managers
pub mod Pings
pub mod Chains
pub mod Ports
pub mod Programs
pub mod Presets
pub mod Servers
pub mod Services
pub mod Supplies
pub mod Factories
pub mod Setups
