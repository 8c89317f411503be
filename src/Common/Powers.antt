-- ===== src/Common/Powers.antt =====
-- Powers of two, and remainders by them.
use swe_capstone.Common.{ℕ, zero, suc, ◌+◌, ◌-◌, ◌*◌, ◌%◌, ◌^◌, ◌≤◌, ◌<◌, ◌≡◌, ap, sym, ◌∙◌, arith}
use native.Mathlib.Nat.{
  mul-le-mul_right, add-zero, add-suc, mod-lt, add-mod-mod, pow-suc, one-le-pow,
  add-mul-mod_self_left, mod-eq_of_lt, div-add-mod,
}
use Prim.Native.Nat.{◌/◌}

pub pow-add : (a b : ℕ) → 2 ^ (a + b) ≡ 2 ^ a * 2 ^ b
pow-add a zero = rw add-zero (omega arith)
pow-add a (suc b) = rw add-suc (
    omega (
      arith,
      pow-suc 2 (a + b),
      ap (λ (t : ℕ). 2 ^ a * t) (pow-suc 2 b),
      ap (λ (t : ℕ). t * 2) (pow-add a b),
    ))

-- A remainder by a multiple of `p` keeps the multiples of `p`.
pub mul-mod-mul : (x y p : ℕ) → 0 < p → 0 < y → (x * p) % (y * p) ≡ (x % y) * p
mul-mod-mul x y p hp hy =
    ap (λ (t : ℕ). t % (y * p)) split
    ∙ (add-mul-mod_self_left ((x % y) * p) (y * p) (x / y) ∙ mod-eq_of_lt below)
  where
    split : x * p ≡ (x % y) * p + (y * p) * (x / y)
    split = omega (arith, ap (λ (t : ℕ). t * p) (div-add-mod x y))

    smaller : x % y < y
    smaller = mod-lt x hy

    below : (x % y) * p < y * p
    below = grind arith

two_pow-split : (pos width : ℕ) → pos ≤ width → 2 ^ width ≡ 2 ^ (width - pos) * 2 ^ pos
two_pow-split pos width h = ap (λ (t : ℕ). 2 ^ t) (sym sum) ∙ pow-add (width - pos) pos
  where
    sum : width - pos + pos ≡ width
    sum = omega arith

pub two_pow-pos : (k : ℕ) → 0 < 2 ^ k
two_pow-pos k = one-le-pow k 2 (omega arith)

-- A group shifted to bit `pos` in a word of `width` bits.
pub shift_mod :
    (g pos width : ℕ) → pos ≤ width → g * 2 ^ pos % 2 ^ width ≡ (g % 2 ^ (width - pos)) * 2 ^ pos
shift_mod g pos width h =
    ap (λ (t : ℕ). g * 2 ^ pos % t) (two_pow-split pos width h)
    ∙ mul-mod-mul g (2 ^ (width - pos)) (2 ^ pos) (two_pow-pos pos) (two_pow-pos (width - pos))

-- Below bit `pos` a word keeps `r`, and what is shifted there loses the bits above `width`.
pub add_shift_mod :
    (r g pos width : ℕ)
    → pos ≤ width
    → r < 2 ^ pos
    → r + g * 2 ^ pos % 2 ^ width ≡ (r + g * 2 ^ pos) % 2 ^ width
add_shift_mod r g pos width h hr = sym (mod-eq_of_lt fits) ∙ add-mod-mod r (g * 2 ^ pos) (2 ^ width)
  where
    fits : r + g * 2 ^ pos % 2 ^ width < 2 ^ width
    fits = omega (
      arith,
      shift_mod g pos width h,
      two_pow-split pos width h,
      mul-le-mul_right (2 ^ pos) (mod-lt g (two_pow-pos (width - pos))),
    )
