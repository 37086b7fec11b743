-- ===== src/Minecraft/Codec/RoundTrip.antt =====
-- What varInt writes readVarInt reads back.
use voxellink_monitor.Common.{
  ℕ, zero, suc, ◌+◌, ◌*◌, ◌/◌, ◌%◌, ◌^◌, ◌≤◌, ◌<◌, ◌≡◌, ap, ◌∙◌, inl, inr, List, [], ◌∷◌, ◌++◌,
  arith, ok, ltb, ltb→lt, Bool-cases, length,
}
use native.Mathlib.Nat.{pow-suc, div-add-mod}
use native.Mathlib.Numerals.{towards_suc}
use voxellink_monitor.Common.Bits.{and_low_seven, or_disjoint, and_top_bit, or_top_bit}
use voxellink_monitor.Minecraft.Codec.{var_int_loop, var_int, read_loop, read_var_int}

-- The bytes that varInt writes, in plain arithmetic.
last_group : (fuel v : ℕ) → v < 128 → var_int_loop (suc fuel) v ≡ v ∷ []
unfolding var_int_loop
last_group fuel v h = ground (arith, and_low_seven v)

inner_group :
    (fuel v : ℕ)
    → 128 ≤ v
    → var_int_loop (suc fuel) v ≡ (v % 128 + 128) ∷ var_int_loop fuel (v / 128)
unfolding var_int_loop
inner_group fuel v h = ground (arith, and_low_seven v, or_top_bit (v % 128))

-- One round of readVarInt on each of the two.
read_last :
    (left i n v : ℕ) (rest : List ℕ)
    → v < 128
    → n < 2 ^ (7 * i)
    → read_loop (suc left) i n (v ∷ rest) ≡ ok (n + v * 2 ^ (7 * i), rest)
unfolding read_loop
read_last left i n v rest h fits =
    ground (arith, and_low_seven v, and_top_bit v, or_disjoint (7 * i) n v)

read_inner :
    (left i n g : ℕ) (rest : List ℕ)
    → g < 128
    → n < 2 ^ (7 * i)
    → read_loop (suc left) i n ((g + 128) ∷ rest)
      ≡ read_loop left (i + 1) (n + g * 2 ^ (7 * i)) rest
unfolding read_loop
read_inner left i n g rest h fits =
    ground (arith, and_low_seven (g + 128), and_top_bit (g + 128), or_disjoint (7 * i) n g)

seven_more : (s : ℕ) → 2 ^ (s + 7) ≡ 128 * 2 ^ s
seven_more s = simp towards_suc (omega arith)

shift_seven : (i : ℕ) → 2 ^ (7 * (i + 1)) ≡ 128 * 2 ^ (7 * i)
shift_seven i = ap (λ (t : ℕ). 2 ^ t) (omega arith) ∙ seven_more (7 * i)

-- The lowest group and the rest, both shifted.
split_group : (v i : ℕ) → v % 128 * 2 ^ (7 * i) + v / 128 * 2 ^ (7 * (i + 1)) ≡ v * 2 ^ (7 * i)
split_group v i = omega (
  arith,
  ap (λ (t : ℕ). t * 2 ^ (7 * i)) (div-add-mod v 128),
  ap (λ (t : ℕ). v / 128 * t) (shift_seven i),
)

-- The sum with one more group fits seven more bits.
room_grows : (n g i : ℕ) → g < 128 → n < 2 ^ (7 * i) → n + g * 2 ^ (7 * i) < 2 ^ (7 * (i + 1))
room_grows n g i h fits = rw shift_seven (grind arith)

read_loop-var_int_loop :
    (left fuel i n v : ℕ) (rest : List ℕ)
    → left ≤ fuel
    → v < 128 ^ suc left
    → n < 2 ^ (7 * i)
    → read_loop (suc left) i n (var_int_loop (suc fuel) v ++ rest) ≡ ok (n + v * 2 ^ (7 * i), rest)
read_loop-var_int_loop zero fuel i n v rest h fits room =
    rw (last_group fuel v fits) (read_last 0 i n v rest fits room)
read_loop-var_int_loop (suc left) zero i n v rest h fits room = absurd (omega arith)
read_loop-var_int_loop (suc left) (suc fuel) i n v rest h fits room =
    elim (Bool-cases (ltb v 128)) [
      | inl small ↦
          rw (last_group (suc fuel) v (ltb→lt v 128 small))
            (read_last (suc left) i n v rest (ltb→lt v 128 small) room)
      | inr large ↦ rw (inner_group (suc fuel) v (ground arith)) (
          read_inner (suc left) i n (v % 128) (var_int_loop (suc fuel) (v / 128) ++ rest)
            (omega arith) room
          ∙ read_loop-var_int_loop left fuel (i + 1) (n + v % 128 * 2 ^ (7 * i)) (v / 128) rest
              (omega arith) (grind (arith, pow-suc 128 (suc left)))
              (room_grows n (v % 128) i (omega arith) room)
          ∙ ap (λ (t : ℕ). ok (t, rest)) (omega (arith, split_group v i)))
    ]

-- A number below 2^35 is read back, and what follows it is left.
pub read_var_int-var_int :
    (v : ℕ) (rest : List ℕ) → v < 2 ^ 35 → read_var_int (var_int v ++ rest) ≡ ok (v, rest)
unfolding read_var_int var_int
read_var_int-var_int v rest h =
    read_loop-var_int_loop 4 8 0 0 v rest (omega arith) h (omega arith)
    ∙ ap (λ (t : ℕ). ok (t, rest)) (omega arith)

length-var_int_loop : (fuel v : ℕ) → length (var_int_loop fuel v) ≤ fuel
unfolding var_int_loop
length-var_int_loop zero v = omega arith
length-var_int_loop (suc fuel) v = ground (arith, length-var_int_loop fuel (v / 128))

pub length-var_int-le : (v : ℕ) → length (var_int v) ≤ 9
unfolding var_int
length-var_int-le v = length-var_int_loop 9 v
