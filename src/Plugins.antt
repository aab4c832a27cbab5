-- ===== src/Plugins.antt =====
-- stolos/plugins: what runs the application of a job.
pub mod Bash
