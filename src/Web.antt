-- ===== src/Web.antt =====
-- The page search: src/web and src/include/web.
pub mod Building
pub mod Counting
pub mod Double
pub mod Caculate
pub mod WebPage
pub mod PageLib
pub mod Preprocessor
pub mod InvertIndex
pub mod Query
pub mod RssParser
pub mod Searcher
