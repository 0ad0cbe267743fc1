-- ===== src/Groups.antt =====
-- i2pchat/groups: the data of groups, the fan-out of messages, the mesh planner and the topology view.
pub mod Models
pub mod Manager
pub mod Mesh
pub mod Store
pub mod Wire
pub mod Import
pub mod Topology
