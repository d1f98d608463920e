-- ===== src/Types.antt =====
-- The data of the stack: src/def/datatypes_public.h and src/def/datatypes_private.h, with the
-- constants of src/def/opt.h.
pub mod Opt
pub mod Time
pub mod Message
pub mod DataSet
pub mod Clock
pub mod Zero
pub mod Sample
pub mod Network
pub mod System
