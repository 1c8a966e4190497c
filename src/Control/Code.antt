-- ===== src/Control/Code.antt =====
-- The codes of OLE that src/library/tLuaControl.cpp returns, as numbers of 32 bits; a code with the
-- last bit is a failure.
use luacom.Prelude.{ℕ}

abbrev pub s_ok : ℕ
s_ok = 0

abbrev pub s_false : ℕ
s_false = 1

abbrev pub oleobj_s_invalidverb : ℕ
oleobj_s_invalidverb = 262528

abbrev pub e_notimpl : ℕ
e_notimpl = 2147500033

abbrev pub e_nointerface : ℕ
e_nointerface = 2147500034

abbrev pub e_pointer : ℕ
e_pointer = 2147500035

abbrev pub e_fail : ℕ
e_fail = 2147500037

abbrev pub e_unexpected : ℕ
e_unexpected = 2147549183

abbrev pub dv_e_dvaspect : ℕ
dv_e_dvaspect = 2147745899

abbrev pub e_outofmemory : ℕ
e_outofmemory = 2147942414
