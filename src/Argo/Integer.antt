-- ===== src/Argo/Integer.antt =====
-- Go's signed integers, with the wrap-around of the conversion to int32.
use Prim.Native.Nat.{◌%◌, ◌^◌}
use go_lib_my_carrier.Base.{ℕ, ◌-◌, Bool, true, false, ltb, nat_eq, if◌then◌else◌}

-- `negsuc n` is -(n + 1).
pub data ℤ : Type 0 where
  pos : ℕ → ℤ
  negsuc : ℕ → ℤ

abbrev pub lt_int : ℤ → ℤ → Bool
lt_int (pos m) (pos n) = ltb m n
lt_int (pos m) (negsuc n) = false
lt_int (negsuc m) (pos n) = true
lt_int (negsuc m) (negsuc n) = ltb n m

abbrev pub int_eq : ℤ → ℤ → Bool
int_eq (pos m) (pos n) = nat_eq m n
int_eq (negsuc m) (negsuc n) = nat_eq m n
int_eq (pos m) (negsuc n) = false
int_eq (negsuc m) (pos n) = false

abbrev pub max_int : ℤ → ℤ → ℤ
max_int m n = if lt_int m n then n else m

abbrev pub minus_one : ℤ
minus_one = ℤ.negsuc 0

-- `int32(i)` of an int that is at least 0.
unfoldable pub int32 : ℕ → ℤ
int32 i =
    let low = i % 2 ^ 32 in if ltb low (2 ^ 31) then ℤ.pos low else ℤ.negsuc (2 ^ 32 - low - 1)
