-- ===== src/Prelude/Words.antt =====
-- `size_t` and the other 64-bit unsigned integers, with their wrap-around, and the bit operations
-- that the program uses on them.
use Prim.Native.Nat.{
  ℕ, zero, suc, ◌+◌, ◌-◌, ◌*◌, ◌/◌, ◌%◌, ◌^◌, ◌≤◌, ◌<◌, min, max, bit_and, bit_or, digits,
  bit_and-bitwise, bit_or-bitwise,
}
use mathlib.Core.Path.{◌≡◌, refl, ap, sym, ◌∙◌}
use native.Mathlib.Omega.{arith}
use native.Mathlib.Nat.{
  pow-suc, pow-succ', one-le-pow, add-suc, add-zero, mul-one, div-one, zero-div, mul_assoc,
  div-div-eq-div-mul,
}

abbrev pub u64_mod : ℕ
u64_mod = 2 ^ 64

-- `a + b` and `a - b` on `size_t`.
unfoldable pub add64 : ℕ → ℕ → ℕ
add64 a b = (a + b) % u64_mod

unfoldable pub sub64 : ℕ → ℕ → ℕ
sub64 a b = (a + u64_mod - b) % u64_mod

-- `~a` on `size_t`.
unfoldable pub not64 : ℕ → ℕ
not64 a = u64_mod - 1 - a

pub add64_lem : (a b : ℕ) → a + b < u64_mod → add64 a b ≡ a + b
unfolding add64
add64_lem a b h = omega arith

pub sub64_lem : (a b : ℕ) → b ≤ a → a < u64_mod → sub64 a b ≡ a - b
unfolding sub64
sub64_lem a b h k = omega arith

pub add64-zero : (a : ℕ) → a < u64_mod → add64 a 0 ≡ a
unfolding add64
add64-zero a h = omega arith

pub zero-add64 : (a : ℕ) → a < u64_mod → add64 0 a ≡ a
unfolding add64
zero-add64 a h = omega arith

pub sub64-zero : (a : ℕ) → a < u64_mod → sub64 a 0 ≡ a
unfolding sub64
sub64-zero a h = omega arith

-- The conjunction of two numbers by their digits, for any count `n` of digits that is enough for
-- the first one, and a mask of ones over zeros.
abbrev conjunction : ℕ → ℕ → ℕ → ℕ
conjunction n x mask = digits (λ rest. zero) min n x mask

conjunction_halves :
    (n x mask : ℕ)
    → conjunction (suc n) x mask ≡ conjunction n (x / 2) (mask / 2) * 2 + min (x % 2) (mask % 2)
conjunction_halves zero zero mask = omega arith
conjunction_halves (suc n) zero mask = omega arith
conjunction_halves n (suc x) mask = omega arith

conjunction_none : (n x : ℕ) → x ≤ n → conjunction n x 0 ≡ 0
conjunction_none zero zero h = refl
conjunction_none zero (suc x) h = elim h [ ]
conjunction_none (suc n) x h =
    omega (arith, conjunction_halves n x 0, conjunction_none n (x / 2) (omega arith))

-- A mask of `m` ones keeps every number below `2 ^ m`.
conjunction_ones : (m n x : ℕ) → x ≤ n → x < 2 ^ m → conjunction n x (2 ^ m - 1) ≡ x
conjunction_ones m zero zero h t = refl
conjunction_ones m zero (suc x) h t = elim h [ ]
conjunction_ones zero (suc n) x h t = omega (arith, conjunction_none (suc n) x h)
conjunction_ones (suc m) (suc n) x h t = omega (
  arith,
  pow-suc 2 m,
  one-le-pow m 2 (omega arith),
  conjunction_halves n x (2 ^ suc m - 1),
  conjunction_ones m n (x / 2) (omega arith) (omega (arith, pow-suc 2 m)),
  ap (conjunction n (x / 2)) shifted,
)
  where
    shifted : (2 ^ suc m - 1) / 2 ≡ 2 ^ m - 1
    shifted = omega (arith, pow-suc 2 m, one-le-pow m 2 (omega arith))

-- A mask of `m` ones over `k` zeros clears the low `k` digits.
conjunction_mask :
    (k m n x : ℕ)
    → x ≤ n
    → x < 2 ^ m * 2 ^ k
    → conjunction n x ((2 ^ m - 1) * 2 ^ k) ≡ x / 2 ^ k * 2 ^ k
conjunction_mask zero m n x h t = simp (mul-one, div-one) (conjunction_ones m n x h (omega arith))
conjunction_mask (suc k) m zero zero h t =
    omega (arith, ap (λ (q : ℕ). q * 2 ^ suc k) (zero-div (2 ^ suc k)))
conjunction_mask (suc k) m zero (suc x) h t = elim h [ ]
conjunction_mask (suc k) m (suc n) x h t = omega (
  arith,
  conjunction_halves n x ((2 ^ m - 1) * 2 ^ suc k),
  ap (conjunction n (x / 2)) shifted,
  lowest,
  conjunction_mask k m n (x / 2) (omega arith)
      (omega (arith, pow-suc 2 k, ap (λ (p : ℕ). 2 ^ m * p) (pow-suc 2 k))),
  quotient,
  ap (λ (p : ℕ). x / (2 ^ suc k) * p) (pow-suc 2 k),
)
  where
    twice : (2 ^ m - 1) * 2 ^ suc k ≡ (2 ^ m - 1) * 2 ^ k * 2
    twice = ap (λ (p : ℕ). (2 ^ m - 1) * p) (pow-suc 2 k) ∙ sym (mul_assoc (2 ^ m - 1) (2 ^ k) 2)

    shifted : (2 ^ m - 1) * 2 ^ suc k / 2 ≡ (2 ^ m - 1) * 2 ^ k
    shifted = rw twice (omega arith)

    lowest : (2 ^ m - 1) * 2 ^ suc k % 2 ≡ 0
    lowest = rw twice (omega arith)

    quotient : x / 2 / 2 ^ k * 2 ^ k ≡ x / 2 ^ suc k * 2 ^ k
    quotient =
        ap (λ (q : ℕ). q * 2 ^ k)
          (div-div-eq-div-mul x 2 (2 ^ k) ∙ sym (ap (λ (d : ℕ). x / d) (pow-succ' 2 k)))

two_pow_add : (a b : ℕ) → 2 ^ a * 2 ^ b ≡ 2 ^ (a + b)
two_pow_add a zero = rw add-zero (omega arith)
two_pow_add a (suc b) =
    rw (add-suc, pow-suc 2 b, pow-suc 2 (a + b)) (omega (arith, two_pow_add a b))

pred_mul : (x y : ℕ) → 0 < x → (x - 1) * y + y ≡ x * y
pred_mul zero y h = absurd (omega arith)
pred_mul (suc n) y h = let e : suc n - 1 ≡ n = omega arith in rw e (omega arith)

-- `a & ~(2 ^ k - 1)` is the largest multiple of `2 ^ k` up to `a`.
pub bit_and-not64 :
    (k a : ℕ) → k ≤ 64 → a < u64_mod → bit_and a (not64 (2 ^ k - 1)) ≡ a / 2 ^ k * 2 ^ k
unfolding not64
bit_and-not64 k a h b =
    bit_and-bitwise a _ ∙ rw mask (conjunction_mask k (64 - k) a a (omega arith) (rw whole b))
  where
    whole : 2 ^ (64 - k) * 2 ^ k ≡ u64_mod
    whole = two_pow_add (64 - k) k ∙ ap (λ (t : ℕ). 2 ^ t) {y = 64} (omega arith)

    mask : u64_mod - 1 - (2 ^ k - 1) ≡ (2 ^ (64 - k) - 1) * 2 ^ k
    mask = omega (
      arith,
      whole,
      one-le-pow k 2 (omega arith),
      pred_mul (2 ^ (64 - k)) (2 ^ k) (one-le-pow (64 - k) 2 (omega arith)),
    )

pub bit_and-zero : (x : ℕ) → bit_and x 0 ≡ 0
bit_and-zero x = bit_and-bitwise x 0 ∙ conjunction_none x x (omega arith)

-- A mask of 32 ones keeps a number below `2 ^ 32`, and one that ends with a zero clears its lowest
-- digit.
pub bit_and-ones32 : (x : ℕ) → x < 2 ^ 32 → bit_and x (2 ^ 32 - 1) ≡ x
bit_and-ones32 x h = bit_and-bitwise x _ ∙ conjunction_ones 32 x x (omega arith) h

pub bit_and-even32 : (x : ℕ) → x < 2 ^ 32 → bit_and x (2 ^ 32 - 2) ≡ x / 2 * 2
bit_and-even32 x h = bit_and-bitwise x _ ∙ conjunction_mask 1 31 x x (omega arith) (omega arith)

-- The disjunction by digits.
abbrev disjunction : ℕ → ℕ → ℕ → ℕ
disjunction n x mask = digits (λ rest. rest) max n x mask

disjunction_halves :
    (n x mask : ℕ)
    → disjunction (suc n) x mask ≡ disjunction n (x / 2) (mask / 2) * 2 + max (x % 2) (mask % 2)
disjunction_halves zero zero mask = omega arith
disjunction_halves (suc n) zero mask = omega arith
disjunction_halves n (suc x) mask = omega arith

disjunction_none : (n x : ℕ) → x ≤ n → disjunction n x 0 ≡ x
disjunction_none zero zero h = refl
disjunction_none zero (suc x) h = elim h [ ]
disjunction_none (suc n) x h =
    omega (arith, disjunction_halves n x 0, disjunction_none n (x / 2) (omega arith))

disjunction_one : (n x : ℕ) → x ≤ n → disjunction n x 1 ≡ x / 2 * 2 + 1
disjunction_one zero zero h = refl
disjunction_one zero (suc x) h = elim h [ ]
disjunction_one (suc n) x h =
    omega (arith, disjunction_halves n x 1, disjunction_none n (x / 2) (omega arith))

disjunction_two : (n x : ℕ) → x ≤ n → disjunction n x 2 ≡ x / 4 * 4 + 2 + x % 2
disjunction_two zero zero h = refl
disjunction_two zero (suc x) h = elim h [ ]
disjunction_two (suc n) x h =
    omega (arith, disjunction_halves n x 2, disjunction_one n (x / 2) (omega arith))

pub bit_or-two : (x : ℕ) → bit_or x 2 ≡ x / 4 * 4 + 2 + x % 2
bit_or-two x = bit_or-bitwise x 2 ∙ disjunction_two x x (omega arith)
