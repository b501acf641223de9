-- ===== src/Ext.antt =====
-- comon/ext.cpp: the commands of the extension.
pub mod Args
pub mod Filter
pub mod Number
pub mod Help
pub mod Metadata
