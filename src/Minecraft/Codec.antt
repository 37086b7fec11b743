-- ===== src/Minecraft/Codec.antt =====
-- varInt and readVarInt of java.go. A byte is a number below 256.
pub mod RoundTrip
use voxellink_monitor.Common.{
  ℕ, zero, suc, ◌+◌, ◌-◌, ◌*◌, ◌/◌, ◌%◌, ◌^◌, ◌≤◌, ◌<◌, bit_and, bit_or, min, max, String, ◌≡◌,
  refl, sym, ap, ◌∙◌, subst, ◌≢◌, ◌↔◌, ◌⊎◌, inl, inr, Bool, true, false, not, ◌&&◌, ◌||◌, Option,
  none, some, List, [], ◌∷◌, ◌++◌, arith, str_eq, eq_iff, Result, ok, err, Result-cases, ℤ, pos,
  negsuc, ltb, leb, ◌==◌, if◌then◌else◌, ltb→lt, leb→le, ==_iff, Bool-cases, Option-cases, length,
  take, drop, head?, filter, any, update_where, All, length-append, length-take-le,
  length-filter-le, length-update_where, is_empty, drop-nil, Pointwise,
}

-- The loop of varInt. It halts at a `v` below 2 ^ (7 * fuel); a Go int that is not negative has 63
-- bits, so nine rounds are enough for every `v` that it is called with.
unfoldable pub var_int_loop : ℕ → ℕ → List ℕ
var_int_loop zero v = []
var_int_loop (suc fuel) v =
    let x = bit_and v 0x7f in
    let more = var_int_loop fuel (v / 2 ^ 7) in
    if v / 2 ^ 7 == 0 then x ∷ [] else bit_or x 0x80 ∷ more

unfoldable pub var_int : ℕ → List ℕ
var_int v = var_int_loop 9 v

pub data ReadError : Type 0 where
  no_byte too_long : ReadError

-- The rounds left, the round, the number so far, and the bytes that are still to be read. At most
-- five groups of seven bits are joined, so a 64-bit int holds the number.
unfoldable pub read_loop : ℕ → ℕ → ℕ → List ℕ → Result ReadError (ℕ × List ℕ)
read_loop zero i n bytes = err too_long
read_loop (suc left) i n [] = err no_byte
read_loop (suc left) i n (b ∷ bytes) =
    let n' = bit_or n (bit_and b 0x7f * 2 ^ (7 * i)) in
    let more = read_loop left (i + 1) n' bytes in
    if bit_and b 0x80 == 0 then ok (n', bytes) else more

unfoldable pub read_var_int : List ℕ → Result ReadError (ℕ × List ℕ)
read_var_int bytes = read_loop 5 0 0 bytes
