-- ===== src/Trie.antt =====
-- src/trie.c: the prefix tree from lower-case words to row indices.
pub mod Nodes
pub mod Exact
pub mod Prefix
mod Tests
