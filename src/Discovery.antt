-- ===== src/Discovery.antt =====
-- cyber/service_discovery: who is in the network, and how the nodes are joined by channels.
pub mod Keys
pub mod Graph
pub mod Role
pub mod Warehouse
pub mod Manager
pub mod Channels
pub mod Nodes
pub mod Services
mod Tests
mod ManagerTests
