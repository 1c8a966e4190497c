-- ===== src/Com.antt =====
-- The COM result codes that the connection points return (src/library/tLuaCOMConnPoints.cpp).

pub data HResult : Type 0 where
  s_ok s_false e_pointer e_invalidarg e_outofmemory e_nointerface e_unexpected : HResult
  connect_e_cannotconnect connect_e_noconnection disp_e_other : HResult
  disp_e_unknowninterface disp_e_membernotfound disp_e_exception type_e_elementnotfound : HResult
