-- ===== src/Config.antt =====
-- Configuration elements: the paths that name them.
pub mod Path
