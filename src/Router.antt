-- ===== src/Router.antt =====
-- src/router.c: the text of requests.
pub mod Query
pub mod Decoding
mod Tests
