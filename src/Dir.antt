-- ===== src/Dir.antt =====
-- The directory operations of src/dhmp_fs_dir_ops.c: paths, the walk along them, the lists of
-- children, and what FUSE calls.
pub mod Path
pub mod Split
pub mod Walk
pub mod Lookup
pub mod Links
pub mod Create
pub mod Made
pub mod Children
pub mod Removal
pub mod Listing
pub mod Sizes
pub mod Delete
pub mod Rename
pub mod Tree
