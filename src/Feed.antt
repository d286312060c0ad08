-- ===== src/Feed.antt =====
-- gateways/lj2news.c: a feed is fetched by one thread, parsed and posted by another.
pub mod Http
pub mod ContentTypes
pub mod Responses
pub mod Elements
pub mod Items
pub mod Writing
pub mod Article
pub mod Keywords
mod Tests
