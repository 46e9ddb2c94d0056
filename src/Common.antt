-- ===== src/Common.antt =====
-- src/common: what the other components take from the configuration and from files.
pub mod Configuration
pub mod DirScanner
pub mod SplitTool
