-- ===== src/Enumerator.antt =====
-- The two enumerators of src/library/tLuaCOMConnPoints.cpp: tLuaCOMEnumConnPoints and
-- tLuaCOMEnumConnections.
pub mod Points
pub mod Connections
