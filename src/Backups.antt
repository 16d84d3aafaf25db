-- ===== src/Backups.antt =====
-- app/backend/utils/backup_strategies.py and app/backend/core/backup_manager.py: which backups are
-- removed, and when the manager makes and removes them.
pub mod Strategy
pub mod Manager
pub mod Archive
pub mod Saving
mod Examples
