-- ===== src/Base/Words.antt =====
-- The unsigned words of the emulator (`word` is a byte, `dword` two), written as remainders, and
-- facts about their bits.
use Prim.Native.Nat.{ℕ, zero, suc, ◌*◌, ◌/◌, ◌%◌, ◌^◌, ◌<◌, bit_and}
use mathlib.Core.Path.{◌≡◌, refl}
use mathlib.Core.Bool.{Bool, true, false, ◌&&◌}
use native.Mathlib.Omega.{arith}
use gameboy_emulator.Base.Tests.{leb, ◌==◌, ==_iff}

abbrev pub u8 : ℕ → ℕ
u8 n = n % 2 ^ 8

abbrev pub u16 : ℕ → ℕ
u16 n = n % 2 ^ 16

-- The value of a Boolean in an integer expression.
abbrev pub bit : Bool → ℕ
bit true = 1
bit false = 0

-- Over a small range a Boolean property is checked by evaluation.
unfoldable pub all_below : ℕ → (ℕ → Bool) → Bool
all_below zero test = true
all_below (suc k) test = all_below k test && test k

pub all_below_sound :
    (bound : ℕ) (test : ℕ → Bool) (i : ℕ) → all_below bound test ≡ true → i < bound → test i ≡ true
unfolding all_below
all_below_sound (suc k) test i all small = ground (arith, all_below_sound k test i)
all_below_sound zero test i all small = absurd (omega arith)

abbrev low_test : ℕ → ℕ → ℕ → Bool
low_test mask n x = bit_and x mask == x % n

one_table : all_below 256 (low_test 1 2) ≡ true
unfolding all_below
one_table = refl

pub bit_and_one : (x : ℕ) → x < 256 → bit_and x 1 ≡ x % 2
bit_and_one x h = (==_iff _ _).0 (all_below_sound 256 (low_test 1 2) x one_table h)

three_table : all_below 256 (low_test 3 4) ≡ true
unfolding all_below
three_table = refl

pub bit_and_three : (x : ℕ) → x < 256 → bit_and x 3 ≡ x % 4
bit_and_three x h = (==_iff _ _).0 (all_below_sound 256 (low_test 3 4) x three_table h)

seven_table : all_below 256 (low_test 7 8) ≡ true
unfolding all_below
seven_table = refl

pub bit_and_seven : (x : ℕ) → x < 256 → bit_and x 7 ≡ x % 8
bit_and_seven x h = (==_iff _ _).0 (all_below_sound 256 (low_test 7 8) x seven_table h)

thirty_one_table : all_below 256 (low_test 31 32) ≡ true
unfolding all_below
thirty_one_table = refl

pub bit_and_thirty_one : (x : ℕ) → x < 256 → bit_and x 31 ≡ x % 32
bit_and_thirty_one x h = (==_iff _ _).0 (all_below_sound 256 (low_test 31 32) x thirty_one_table h)

seven_bits_table : all_below 256 (low_test 127 128) ≡ true
unfolding all_below
seven_bits_table = refl

pub bit_and_seven_bits : (x : ℕ) → x < 256 → bit_and x 127 ≡ x % 128
bit_and_seven_bits x h =
    (==_iff _ _).0 (all_below_sound 256 (low_test 127 128) x seven_bits_table h)

-- The test of bit 2.
abbrev bit_two_test : ℕ → Bool
bit_two_test x = bit_and x 4 == x / 4 % 2 * 4

bit_two_table : all_below 256 bit_two_test ≡ true
unfolding all_below
bit_two_table = refl

pub bit_and_four : (x : ℕ) → x < 256 → bit_and x 4 ≡ x / 4 % 2 * 4
bit_and_four x h = (==_iff _ _).0 (all_below_sound 256 bit_two_test x bit_two_table h)

abbrev nibble_test : ℕ → Bool
nibble_test x = bit_and x 0xF == x % 16

nibble_table : all_below 256 nibble_test ≡ true
unfolding all_below
nibble_table = refl

pub bit_and_nibble : (x : ℕ) → x < 256 → bit_and x 0xF ≡ x % 16
bit_and_nibble x h = (==_iff _ _).0 (all_below_sound 256 nibble_test x nibble_table h)

abbrev byte_test : ℕ → Bool
byte_test x = bit_and x 0xFF == x % 256

byte_table : all_below 65536 byte_test ≡ true
unfolding all_below
byte_table = refl

pub bit_and_byte : (x : ℕ) → x < 65536 → bit_and x 0xFF ≡ x % 256
bit_and_byte x h = (==_iff _ _).0 (all_below_sound 65536 byte_test x byte_table h)

abbrev low12_test : ℕ → Bool
low12_test x = bit_and x 0xFFF == x % 4096

low12_table : all_below 65536 low12_test ≡ true
unfolding all_below
low12_table = refl

pub bit_and_low12 : (x : ℕ) → x < 65536 → bit_and x 0xFFF ≡ x % 4096
bit_and_low12 x h = (==_iff _ _).0 (all_below_sound 65536 low12_test x low12_table h)

-- The test of the fifth bit of a sum of two nibbles is a comparison.
abbrev carry_test : ℕ → Bool
carry_test x = elim (bit_and x 0x10 == 0x10) [ true ↦ leb 16 x | false ↦ leb x 15 ]

carry_table : all_below 31 carry_test ≡ true
unfolding all_below
carry_table = refl

pub carry_bit : (x : ℕ) → x < 31 → (bit_and x 0x10 == 0x10) ≡ leb 16 x
carry_bit x h =
    let t : carry_test x ≡ true = all_below_sound 31 carry_test x carry_table h in ground arith

abbrev carry12_test : ℕ → Bool
carry12_test x = elim (bit_and x 0x1000 == 0x1000) [ true ↦ leb 4096 x | false ↦ leb x 4095 ]

carry12_table : all_below 8191 carry12_test ≡ true
unfolding all_below
carry12_table = refl

pub carry12_bit : (x : ℕ) → x < 8191 → (bit_and x 0x1000 == 0x1000) ≡ leb 4096 x
carry12_bit x h =
    let t : carry12_test x ≡ true = all_below_sound 8191 carry12_test x carry12_table h in
    ground arith
