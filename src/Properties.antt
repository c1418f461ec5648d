-- ===== src/Properties.antt =====
-- mutations.py and the paths of indexing.py: the property documents of records, their pointers,
-- their validation, and the merge of a patch.
pub mod Pointer
pub mod Decoding
pub mod Merge
pub mod Overlay
mod Tests
