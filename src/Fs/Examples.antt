-- ===== src/Fs/Examples.antt =====
-- The file system's theorems at a small partition and a few open files.
mod State
mod Layout
mod Tables
mod Content
mod Opening
