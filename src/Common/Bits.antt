-- ===== src/Common/Bits.antt =====
-- `|` and `&` as arithmetic. The native operations stand for a recursion on binary digits whose
-- fuel is the first number.
use Prim.Native.Nat.{digits, bit_and-bitwise, bit_or-bitwise}
use voxellink_monitor.Common.{
  ℕ, zero, suc, ◌+◌, ◌*◌, ◌/◌, ◌%◌, ◌^◌, ◌≤◌, ◌<◌, bit_and, bit_or, min, max, ◌≡◌, refl, ap, ◌∙◌,
  inl, inr, Bool, true, ◌&&◌, arith, ◌==◌, ==_iff, Bool-cases,
}
use native.Mathlib.Nat.{pow-suc, le_refl}

module _ (z : ℕ → ℕ) (f : ℕ → ℕ → ℕ) where
  one_more : (n a b : ℕ) → a ≤ n → digits z f (suc n) a b ≡ digits z f n a b
  one_more n zero b h = zero_runs n b
    where
      zero_runs : (n b : ℕ) → digits z f (suc n) zero b ≡ digits z f n zero b
      zero_runs zero b = refl
      zero_runs (suc n) b = refl
  one_more zero (suc a) b h = absurd (omega arith)
  one_more (suc n) (suc a) b h = rw (one_more n (suc a / 2) (b / 2) (omega arith))

  -- Any fuel that the number needs gives what the number itself gives as fuel.
  enough : (n a b : ℕ) → a ≤ n → digits z f n a b ≡ digits z f a a b
  enough zero zero b h = refl
  enough zero (suc a) b h = absurd (omega arith)
  enough (suc n) a b h = elim (Bool-cases (a == suc n)) [
    | inl e ↦ rw ((==_iff a (suc n)).0 e)
    | inr e ↦ one_more n a b (ground arith) ∙ enough n a b (ground arith)
  ]

or_zero_left : (b : ℕ) → bit_or 0 b ≡ b
or_zero_left b = bit_or-bitwise 0 b

and_zero_left : (b : ℕ) → bit_and 0 b ≡ 0
and_zero_left b = bit_and-bitwise 0 b

or_digit : (a b : ℕ) → bit_or a b ≡ bit_or (a / 2) (b / 2) * 2 + max (a % 2) (b % 2)
or_digit zero b = omega (arith, or_zero_left b, or_zero_left (b / 2))
or_digit (suc a) b = omega (
  arith,
  bit_or-bitwise (suc a) b,
  bit_or-bitwise (suc a / 2) (b / 2),
  enough (λ y. y) max a (suc a / 2) (b / 2) (omega arith),
)

and_digit : (a b : ℕ) → bit_and a b ≡ bit_and (a / 2) (b / 2) * 2 + min (a % 2) (b % 2)
and_digit zero b = omega (arith, and_zero_left b, and_zero_left (b / 2))
and_digit (suc a) b = omega (
  arith,
  bit_and-bitwise (suc a) b,
  bit_and-bitwise (suc a / 2) (b / 2),
  enough (λ y. zero) min a (suc a / 2) (b / 2) (omega arith),
)

and_none : (k a : ℕ) → a ≤ k → bit_and a 0 ≡ 0
and_none k zero h = and_zero_left 0
and_none zero (suc a) h = absurd (omega arith)
and_none (suc k) (suc a) h =
    omega (arith, and_digit (suc a) 0, and_none k (suc a / 2) (omega arith))

and_low_one : (a : ℕ) → bit_and a 1 ≡ a % 2
and_low_one a = omega (arith, and_digit a 1, and_none _ (a / 2) (le_refl _))

and_low_two : (a : ℕ) → bit_and a 3 ≡ a % 4
and_low_two a = omega (arith, and_digit a 3, and_low_one (a / 2))

and_low_three : (a : ℕ) → bit_and a 7 ≡ a % 8
and_low_three a = omega (arith, and_digit a 7, and_low_two (a / 2))

and_low_four : (a : ℕ) → bit_and a 15 ≡ a % 16
and_low_four a = omega (arith, and_digit a 15, and_low_three (a / 2))

and_low_five : (a : ℕ) → bit_and a 31 ≡ a % 32
and_low_five a = omega (arith, and_digit a 31, and_low_four (a / 2))

and_low_six : (a : ℕ) → bit_and a 63 ≡ a % 64
and_low_six a = omega (arith, and_digit a 63, and_low_five (a / 2))

-- `a & 0x7f`
pub and_low_seven : (a : ℕ) → bit_and a 0x7f ≡ a % 128
and_low_seven a = omega (arith, and_digit a 127, and_low_six (a / 2))

-- `n | (x << k)`, where `n` has at most k bits
pub or_disjoint : (k n x : ℕ) → n < 2 ^ k → bit_or n (x * 2 ^ k) ≡ n + x * 2 ^ k
or_disjoint zero n x h = ground (arith, or_zero_left (x * 2 ^ 0))
or_disjoint (suc k) n x h = ground (
  arith,
  or_digit n (x * 2 ^ suc k),
  pow-suc 2 k,
  ap (λ (t : ℕ). x * t) (pow-suc 2 k),
  or_disjoint k (n / 2) x,
)

-- `b & 0x80` and `b | 0x80` of a byte
agree : (ℕ → ℕ) → (ℕ → ℕ) → ℕ → Bool
agree f g zero = true
agree f g (suc n) = f n == g n && agree f g n

agree_sound : (f g : ℕ → ℕ) (n : ℕ) → agree f g n ≡ true → (b : ℕ) → b < n → f b ≡ g b
unfolding agree
agree_sound f g zero e b h = absurd (omega arith)
agree_sound f g (suc n) e b h = ground (arith, agree_sound f g n (ground arith) b)

pub and_top_bit : (b : ℕ) → b < 256 → bit_and b 0x80 ≡ b / 128 * 128
unfolding agree
and_top_bit = agree_sound (λ b. bit_and b 0x80) (λ b. b / 128 * 128) 256 refl

pub or_top_bit : (b : ℕ) → b < 128 → bit_or b 0x80 ≡ b + 128
unfolding agree
or_top_bit = agree_sound (λ b. bit_or b 0x80) (λ b. b + 128) 128 refl
