-- ===== src/Prelude/Xor.antt =====
-- The laws of `^` on unsigned integers that the XOR metric needs, at every width.
use Prim.Native.Nat.{differ, digits, bitwise, bit_xor-bitwise}
use mathlib.Core.WellFounded
use native.Mathlib.Nat.{pow-suc, mul-one, add-zero}
use auth_kademlia.Prelude.{
  ℕ, zero, suc, ◌+◌, ◌-◌, ◌*◌, ◌/◌, ◌%◌, ◌^◌, ◌≤◌, ◌<◌, bit_xor, ◌≡◌, refl, ap, ◌∙◌, arith,
}
use auth_kademlia.Prelude.Order.{lt_wf}

-- Fuel that the native definition does not use up changes nothing.
digits_more :
    (k a b : ℕ) → a ≤ k → digits (λ y. y) differ (suc k) a b ≡ digits (λ y. y) differ k a b
digits_more k zero b h = digits-zero k b
  where
    digits-zero :
        (k b : ℕ) → digits (λ y. y) differ (suc k) zero b ≡ digits (λ y. y) differ k zero b
    digits-zero zero b = refl
    digits-zero (suc k) b = refl
digits_more zero (suc a) b h = absurd (omega arith)
digits_more (suc k) (suc a) b h = omega (arith, digits_more k (suc a / 2) (b / 2) (omega arith))

digits_spare :
    (d k a b : ℕ) → a ≤ k → digits (λ y. y) differ (d + k) a b ≡ digits (λ y. y) differ k a b
digits_spare zero k a b h =
    let same : 0 + k ≡ k = omega arith in ap (λ n. digits (λ y. y) differ n a b) same
digits_spare (suc d) k a b h =
    let next : suc d + k ≡ suc (d + k) = omega arith in
    ap (λ n. digits (λ y. y) differ n a b) next
    ∙ digits_more (d + k) a b (omega arith)
    ∙ digits_spare d k a b h

pub zero-bit_xor : (b : ℕ) → bit_xor 0 b ≡ b
zero-bit_xor b = bit_xor-bitwise 0 b

bitwise-suc :
    (a b : ℕ)
    → bitwise (λ y. y) differ (suc a) b
      ≡ differ (suc a % 2) (b % 2) + bitwise (λ y. y) differ (suc a / 2) (b / 2) * 2
bitwise-suc a b =
    let half = suc a / 2 in
    let spare : a - half + half ≡ a = omega arith in
    omega (
      arith,
      digits_spare (a - half) half half (b / 2) (omega arith),
      ap (λ n. digits (λ y. y) differ n half (b / 2)) spare,
    )

differ_bits : (a b : ℕ) → a < 2 → b < 2 → differ a b ≡ (a + b) % 2
differ_bits zero b h k = omega arith
differ_bits (suc zero) zero h k = refl
differ_bits (suc zero) (suc zero) h k = refl
differ_bits (suc zero) (suc (suc b)) h k = absurd (omega arith)
differ_bits (suc (suc a)) b h k = absurd (omega arith)

-- The lowest digit of `a ^ b` is the sum of the lowest digits, modulo 2.
pub bit_xor_step : (a b : ℕ) → bit_xor a b ≡ bit_xor (a / 2) (b / 2) * 2 + (a + b) % 2
bit_xor_step zero b = omega (arith, zero-bit_xor b, zero-bit_xor (b / 2))
bit_xor_step (suc a) b = omega (
  arith,
  bit_xor-bitwise (suc a) b,
  bit_xor-bitwise (suc a / 2) (b / 2),
  bitwise-suc a b,
  differ_bits (suc a % 2) (b % 2),
)

bit_xor_half : (a b : ℕ) → bit_xor a b / 2 ≡ bit_xor (a / 2) (b / 2)
bit_xor_half a b = omega (arith, bit_xor_step a b)

double_pow : (k c : ℕ) → c * 2 ^ suc k ≡ c * 2 ^ k * 2
double_pow k c = omega (arith, ap (◌*◌ c) (pow-suc 2 k))

-- Laws that go from `a / 2` and its like to `a`, by strong induction.
pub bit_xor-zero : (a : ℕ) → bit_xor a 0 ≡ a
bit_xor-zero a = WellFounded.induction lt_wf {C = λ a. bit_xor a 0 ≡ a} a step
  where
    step : (a : ℕ) → ((h : ℕ) → h < a → bit_xor h 0 ≡ h) → bit_xor a 0 ≡ a
    step zero below = zero-bit_xor 0
    step (suc a) below =
        let half = below (suc a / 2) (omega arith) in omega (arith, half, bit_xor_step (suc a) 0)

pub bit_xor_comm : (a b : ℕ) → bit_xor a b ≡ bit_xor b a
bit_xor_comm a = WellFounded.induction lt_wf {C = λ a. (b : ℕ) → bit_xor a b ≡ bit_xor b a} a step
  where
    step :
        (n : ℕ)
        → ((m : ℕ) → m < n → (b : ℕ) → bit_xor m b ≡ bit_xor b m)
        → (b : ℕ) → bit_xor n b ≡ bit_xor b n
    step zero ih b = omega (arith, zero-bit_xor b, bit_xor-zero b)
    step (suc n) ih b = omega (
      arith,
      bit_xor_step (suc n) b,
      bit_xor_step b (suc n),
      ih (suc n / 2) (omega arith) (b / 2),
    )

pub bit_xor_self : (a : ℕ) → bit_xor a a ≡ 0
bit_xor_self a = WellFounded.induction lt_wf {C = λ a. bit_xor a a ≡ 0} a step
  where
    step : (n : ℕ) → ((m : ℕ) → m < n → bit_xor m m ≡ 0) → bit_xor n n ≡ 0
    step zero ih = zero-bit_xor 0
    step (suc n) ih = omega (arith, bit_xor_step (suc n) (suc n), ih (suc n / 2) (omega arith))

-- `a ^ b` is 0 only for equal numbers: a distance of 0 identifies the point.
pub eq_of_bit_xor-zero : (a b : ℕ) → bit_xor a b ≡ 0 → a ≡ b
eq_of_bit_xor-zero a =
    WellFounded.induction lt_wf {C = λ a. (b : ℕ) → bit_xor a b ≡ 0 → a ≡ b} a step
  where
    step :
        (n : ℕ)
        → ((m : ℕ) → m < n → (b : ℕ) → bit_xor m b ≡ 0 → m ≡ b)
        → (b : ℕ) → bit_xor n b ≡ 0
        → n ≡ b
    step zero ih b h = omega (arith, zero-bit_xor b)
    step (suc n) ih b h =
        let e : bit_xor (suc n / 2) (b / 2) ≡ 0 = omega (arith, bit_xor_step (suc n) b) in
        omega (arith, bit_xor_step (suc n) b, ih (suc n / 2) (omega arith) (b / 2) e)

pub bit_xor_assoc : (a b c : ℕ) → bit_xor (bit_xor a b) c ≡ bit_xor a (bit_xor b c)
bit_xor_assoc a =
    WellFounded.induction lt_wf
      {C = λ a. (b c : ℕ) → bit_xor (bit_xor a b) c ≡ bit_xor a (bit_xor b c)} a step
  where
    step :
        (n : ℕ)
        → ((m : ℕ) → m < n → (b c : ℕ) → bit_xor (bit_xor m b) c ≡ bit_xor m (bit_xor b c))
        → (b c : ℕ) → bit_xor (bit_xor n b) c ≡ bit_xor n (bit_xor b c)
    step zero ih b c = rw (zero-bit_xor b, zero-bit_xor (bit_xor b c))
    step (suc n) ih b c =
        bit_xor_step (bit_xor (suc n) b) c
        ∙ (rw (bit_xor_half (suc n) b, bit_xor_step (suc n) (bit_xor b c), bit_xor_half b c)
            (omega (
              arith,
              ih (suc n / 2) (omega arith) (b / 2) (c / 2),
              bit_xor_step (suc n) b,
              bit_xor_step b c,
            )))

-- The bits above a field and the field do not meet.
pub bit_xor_fields :
    (k a b r : ℕ) → r < 2 ^ k → bit_xor (a * 2 ^ k + r) (b * 2 ^ k) ≡ bit_xor a b * 2 ^ k + r
bit_xor_fields zero a b r fits = let e : r ≡ 0 = omega arith in rw e (simp (mul-one, add-zero))
bit_xor_fields (suc k) a b r fits = ground (
  arith,
  pow-suc 2 k,
  double_pow k a,
  double_pow k b,
  double_pow k (bit_xor a b),
  bit_xor_step (a * 2 ^ suc k + r) (b * 2 ^ suc k),
  bit_xor_fields k a b (r / 2),
)

-- `a ^ b` needs no more bits than its arguments.
pub bit_xor-lt : (k a b : ℕ) → a < 2 ^ k → b < 2 ^ k → bit_xor a b < 2 ^ k
bit_xor-lt zero a b p q =
    let e : a ≡ 0 = omega arith in
    let f : b ≡ 0 = omega arith in rw (e, f) (omega (arith, zero-bit_xor 0))
bit_xor-lt (suc k) a b p q = omega (
  arith,
  pow-suc 2 k,
  bit_xor_step a b,
  bit_xor-lt k (a / 2) (b / 2) (omega (arith, pow-suc 2 k)) (omega (arith, pow-suc 2 k)),
)
