-- ===== src/Cpu/Opcodes/Decimal.antt =====
-- Decimal arithmetic: `DAA` of src/CPU/opcodes.hpp behind an addition or a subtraction of two bytes
-- that hold two decimal digits each.
use gameboy_emulator.Base.{
  ℕ, ◌+◌, ◌-◌, ◌*◌, ◌/◌, ◌%◌, ◌<◌, ◌≡◌, refl, Bool, true, false, ltb, leb, ◌==◌, ◌&&◌,
  if◌then◌else◌, arith,
}
use gameboy_emulator.Base.Words.{all_below, all_below_sound}
use gameboy_emulator.Cpu.Alu.{add_register, sub_register, get_carry_flag, get_half_carry_flag}
use gameboy_emulator.Cpu.Opcodes.Arithmetic.{adjust_high, adjust_low, decimal_adjust}
use gameboy_emulator.Cpu.Registers.{Registers}

-- The byte with these two digits.
abbrev pub packed : ℕ → ℕ
packed n = n / 10 * 16 + n % 10

sample : ℕ → Registers
sample a = record {
  a = a;
  f = record { fz = false; fn = false; fh = false; fc = false };
  b = 0;
  c = 0;
  d = 0;
  e = 0;
  h = 0;
  l = 0;
  sp = 0;
  pc = 0;
}

agrees : Bool → Bool → Bool
agrees true b = b
agrees false b = if b then false else true

agrees_sound : (a b : Bool) → agrees a b ≡ true → a ≡ b
unfolding agrees
agrees_sound a b h = ground arith

matches : Registers → ℕ → Bool → Bool → Bool
unfolding agrees
matches r a c z = r.a == a && (agrees r.f.fc c && agrees r.f.fz z)

abbrev sum_test : ℕ → ℕ → Bool
sum_test x y =
    matches (decimal_adjust (add_register (packed y) (sample (packed x)))) (packed ((x + y) % 100))
      (leb 100 (x + y)) ((x + y) % 100 == 0)

abbrev difference_test : ℕ → ℕ → Bool
difference_test x y =
    matches (decimal_adjust (sub_register (packed y) (sample (packed x))))
      (packed ((x + 100 - y) % 100)) (ltb x y) ((x + 100 - y) % 100 == 0)

abbrev sum_row : ℕ → Bool
sum_row x = all_below 100 (sum_test x)

abbrev difference_row : ℕ → Bool
difference_row x = all_below 100 (difference_test x)

sum_table : all_below 100 sum_row ≡ true
unfolding all_below matches sample decimal_adjust adjust_high adjust_low add_register get_carry_flag
    get_half_carry_flag
sum_table = refl

difference_table : all_below 100 difference_row ≡ true
unfolding all_below matches sample decimal_adjust adjust_high adjust_low sub_register
difference_table = refl

-- The outcome of an adjustment, as decimal digits, carry and zero flag.
abbrev pub Shows : Registers → ℕ → Bool → Type 0
Shows r n carry = (r.a ≡ packed n) × (r.f.fc ≡ carry) × (r.f.fz ≡ (n == 0))

matches_sound :
    (r : Registers) (n : ℕ) (carry : Bool)
    → matches r (packed n) carry (n == 0) ≡ true
    → Shows r n carry
unfolding matches agrees
matches_sound r n carry h = ground arith

sum_of_sample :
    (x y : ℕ) (r : Registers)
    → r.a ≡ packed x
    → Shows
        (decimal_adjust (add_register (packed y) (sample (packed x))))
        ((x + y) % 100)
        (leb 100 (x + y))
    → Shows (decimal_adjust (add_register (packed y) r)) ((x + y) % 100) (leb 100 (x + y))
unfolding sample decimal_adjust adjust_high adjust_low add_register
sum_of_sample x y r e h = rw e h

difference_of_sample :
    (x y : ℕ) (r : Registers)
    → r.a ≡ packed x
    → Shows
        (decimal_adjust (sub_register (packed y) (sample (packed x))))
        ((x + 100 - y) % 100)
        (ltb x y)
    → Shows (decimal_adjust (sub_register (packed y) r)) ((x + 100 - y) % 100) (ltb x y)
unfolding sample decimal_adjust adjust_high adjust_low sub_register
difference_of_sample x y r e h = rw e h

-- Decimal arithmetic on two digits: with `A` and the operand holding the digits of two numbers below 100, `DAA` behind an addition leaves the digits of their sum modulo 100, with the carry flag set exactly from 100 on; behind a subtraction those of their difference modulo 100, with the carry flag set exactly on a borrow; in both cases the zero flag tells that the digits are 0.
pub decimal_adjust-add_sub :
    (r : Registers) (x y : ℕ)
    → x < 100
    → y < 100
    → r.a ≡ packed x
    → Shows (decimal_adjust (add_register (packed y) r)) ((x + y) % 100) (leb 100 (x + y))
      × Shows (decimal_adjust (sub_register (packed y) r)) ((x + 100 - y) % 100) (ltb x y)
decimal_adjust-add_sub r x y h k e =
    let row : sum_row x ≡ true = all_below_sound 100 sum_row x sum_table h in
    let row' : difference_row x ≡ true = all_below_sound 100 difference_row x difference_table h in
    (
      sum_of_sample x y r e (
          matches_sound _ ((x + y) % 100) (leb 100 (x + y))
            (all_below_sound 100 (sum_test x) y row k)),
      difference_of_sample x y r e (
          matches_sound _ ((x + 100 - y) % 100) (ltb x y)
            (all_below_sound 100 (difference_test x) y row' k)),
    )
