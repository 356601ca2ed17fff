-- ===== src/Elf.antt =====
-- backend/src/elf: the data regions and the objects of a linked program. What the object-file
-- library reads of a file is a record of its facts.
pub mod Regions
pub mod Images
pub mod Addresses
