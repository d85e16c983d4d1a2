-- ===== src/Err/Symbols/Named.antt =====
-- `addrsym_repr` of src/kernel/err/meta_resolver.cc over the demangler of src/kernel/err/mangle.cc.
