-- ===== src/Ospfs/Bitvector.antt =====
-- lab3/ospfsmod.c, bitvector operations: one bit of a bit vector that starts at a word address.
use Prim.Native.Nat.{bit_and, bit_or}
use native.Mathlib.Nat.{pow-le-pow_right, pow-suc, one-le-pow}
use cs111fall.Prelude.{
  ℕ, suc, ◌+◌, ◌/◌, ◌%◌, ◌^◌, ◌<◌, ◌≡◌, ◌≢◌, Bool, true, false, not, arith, ◌==◌, if◌then◌else◌,
  update,
}
use cs111fall.Prelude.Bits.{digit, digit-bit_or, digit-bit_and, digit-pow, mask-digit, complement}
use cs111fall.Prelude.Bits.{digit-complement, digit-le}
use cs111fall.Ospfs.Disk.{Disk}

unfoldable pub bitvector_set : ℕ → ℕ → Disk → Disk
bitvector_set vector i d = update d (vector + i / 32) (bit_or (d (vector + i / 32)) (2 ^ (i % 32)))

unfoldable pub bitvector_clear : ℕ → ℕ → Disk → Disk
bitvector_clear vector i d =
    update d (vector + i / 32) (bit_and (d (vector + i / 32)) (complement 32 (2 ^ (i % 32))))

unfoldable pub bitvector_test : ℕ → ℕ → Disk → Bool
bitvector_test vector i d = not (bit_and (d (vector + i / 32)) (2 ^ (i % 32)) == 0)

-- The test reads one binary digit.
pub test-digit :
    (v i : ℕ) (d : Disk) → bitvector_test v i d ≡ (digit (i % 32) (d (v + i / 32)) == 1)
unfolding bitvector_test
test-digit v i d = mask-digit (d (v + i / 32)) (i % 32)

digit-set : (k j w : ℕ) → digit j (bit_or w (2 ^ k)) ≡ (if k == j then 1 else digit j w)
digit-set k j w = ground (arith, digit-bit_or j w (2 ^ k), digit-pow j k, digit-le j w)

pow-lt : (k : ℕ) → k < 32 → 2 ^ k < 2 ^ 32
pow-lt k h = omega (
  arith,
  pow-le-pow_right {n = 2} (omega arith) {i = suc k} {j = 32} h,
  pow-suc 2 k,
  one-le-pow k 2 (omega arith),
)

digit-clear :
    (k j w : ℕ)
    → k < 32
    → j < 32
    → digit j (bit_and w (complement 32 (2 ^ k))) ≡ (if k == j then 0 else digit j w)
digit-clear k j w hk hj = ground (
  arith,
  digit-bit_and j w (complement 32 (2 ^ k)),
  digit-complement j 32 (2 ^ k) hj (pow-lt k hk),
  digit-pow j k,
  digit-le j w,
)

module _ (v i j : ℕ) (d : Disk) where
  -- Setting bit `i` makes the test of `i` true and leaves every other test alone.
  pub test-set :
      bitvector_test v j (bitvector_set v i d) ≡ (if i == j then true else bitvector_test v j d)
  unfolding bitvector_set
  test-set = ground (
    arith,
    test-digit v j d,
    test-digit v j (bitvector_set v i d),
    digit-set (i % 32) (j % 32) (d (v + i / 32)),
  )

  -- Clearing bit `i` makes the test of `i` false and leaves every other test alone.
  pub test-clear :
      bitvector_test v j (bitvector_clear v i d) ≡ (if i == j then false else bitvector_test v j d)
  unfolding bitvector_clear
  test-clear = ground (
    arith,
    test-digit v j d,
    test-digit v j (bitvector_clear v i d),
    digit-clear (i % 32) (j % 32) (d (v + i / 32)),
  )

-- Both operations write one word only.
pub set_frame : (v i a : ℕ) (d : Disk) → v + i / 32 ≢ a → bitvector_set v i d a ≡ d a
unfolding bitvector_set
set_frame v i a d h = ground arith

pub clear_frame : (v i a : ℕ) (d : Disk) → v + i / 32 ≢ a → bitvector_clear v i d a ≡ d a
unfolding bitvector_clear
clear_frame v i a d h = ground arith
