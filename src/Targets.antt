-- ===== src/Targets.antt =====
-- targetstore.py and the loader of main.py: the target list.
pub mod Text
pub mod Value
pub mod Checked
pub mod Window
pub mod Url
pub mod Number
pub mod Entry
pub mod Store
pub mod Target
pub mod Load
pub mod Seed
