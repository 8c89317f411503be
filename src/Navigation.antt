-- ===== src/Navigation.antt =====
-- The app's own code: route finding over the campus graph.
pub mod SortedArray
pub mod Graph
pub mod FindPath
pub mod Closest
