-- ===== src/Variant.antt =====
-- The types of a VARIANT and their sizes and names (src/library/tLuaCOMTypeHandler.cpp).
use luacom.Prelude.{ℕ, Bool, true, false}
use luacom.Prelude.Result.{Result, ok, throw, typeconv_error}

-- The VARTYPEs that the code names; `unnamed` is any other.
pub data VarType : Type 0 where
  vt_i1 vt_i2 vt_i4 vt_i8 vt_ui1 vt_ui2 vt_ui4 vt_ui8 vt_int vt_uint vt_r4 vt_r8 : VarType
  vt_cy vt_date vt_bstr vt_dispatch vt_error vt_bool vt_variant vt_unknown vt_decimal : VarType
  unnamed : ℕ → VarType

-- The sizes of types of the C++ compiler and of OLE.
pub record Sizes : Type 0 where
  pub pointer : ℕ
  pub int : ℕ
  pub currency : ℕ
  pub date : ℕ
  pub scode : ℕ
  pub variant_bool : ℕ
  pub variant : ℕ

-- VariantSize; the first argument says whether VT_ARRAY is set.
unfoldable pub variant_size : Sizes → Bool → VarType → Result ℕ
variant_size z true vt = ok z.pointer
variant_size z false vt_i2 = ok 2
variant_size z false vt_i4 = ok 4
variant_size z false vt_i8 = ok 8
variant_size z false vt_r4 = ok 4
variant_size z false vt_r8 = ok 8
variant_size z false vt_cy = ok z.currency
variant_size z false vt_date = ok z.date
variant_size z false vt_bstr = ok z.pointer
variant_size z false vt_dispatch = ok z.pointer
variant_size z false vt_error = ok z.scode
variant_size z false vt_bool = ok z.variant_bool
variant_size z false vt_variant = ok z.variant
variant_size z false vt_unknown = ok z.pointer
variant_size z false vt_decimal = ok 16
variant_size z false vt_ui1 = ok 1
variant_size z false vt_i1 = ok 1
variant_size z false vt_ui2 = ok 2
variant_size z false vt_ui4 = ok 4
variant_size z false vt_ui8 = ok 8
variant_size z false vt_int = ok z.int
variant_size z false vt_uint = ok z.int
variant_size z false (unnamed n) = throw typeconv_error

-- The names that numericVariantTypeName returns.
pub data TypeName : Type 0 where
  currency uint1 uint2 uint4 uint8 int uint int1 int2 int4 int8 float decimal double : TypeName

unfoldable pub numeric_variant_type_name : VarType → TypeName
numeric_variant_type_name vt_cy = currency
numeric_variant_type_name vt_ui1 = uint1
numeric_variant_type_name vt_ui2 = uint2
numeric_variant_type_name vt_ui4 = uint4
numeric_variant_type_name vt_ui8 = uint8
numeric_variant_type_name vt_int = TypeName.int
numeric_variant_type_name vt_uint = uint
numeric_variant_type_name vt_i1 = int1
numeric_variant_type_name vt_i2 = int2
numeric_variant_type_name vt_i4 = int4
numeric_variant_type_name vt_i8 = int8
numeric_variant_type_name vt_r4 = float
numeric_variant_type_name vt_decimal = decimal
numeric_variant_type_name vt_r8 = double
numeric_variant_type_name vt_date = double
numeric_variant_type_name vt_bstr = double
numeric_variant_type_name vt_dispatch = double
numeric_variant_type_name vt_error = double
numeric_variant_type_name vt_bool = double
numeric_variant_type_name vt_variant = double
numeric_variant_type_name vt_unknown = double
numeric_variant_type_name (unnamed n) = double
