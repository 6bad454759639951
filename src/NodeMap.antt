-- ===== src/NodeMap.antt =====
-- node_map.py: node ids, node definitions and node maps.
pub mod Ids
pub mod Node
pub mod Map
