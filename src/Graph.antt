-- ===== src/Graph.antt =====
-- offwork/graph, with the node types of offwork/core/models.py.
pub mod Models
pub mod Store
