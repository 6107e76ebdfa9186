-- ===== src/Weensy/Registers.antt =====
-- What the two kernels share: `registers_t` of weensyos1/x86.h and weensyos2/x86.h, and `procstate_t` of
-- weensyos1/mpos-kern.h and weensyos2/schedos-kern.h.
use cs111fall.Prelude.{ℕ, ◌-◌, ◌^◌, Bool, true, false}

-- `registers_t`.
pub record Registers : Type 0 where
  pub reg_edi : ℕ
  pub reg_esi : ℕ
  pub reg_ebp : ℕ
  pub reg_original_esp : ℕ
  pub reg_ebx : ℕ
  pub reg_edx : ℕ
  pub reg_ecx : ℕ
  pub reg_eax : ℕ
  pub reg_es : ℕ
  pub reg_padding1 : ℕ
  pub reg_ds : ℕ
  pub reg_padding2 : ℕ
  pub reg_intno : ℕ
  pub reg_err : ℕ
  pub reg_eip : ℕ
  pub reg_cs : ℕ
  pub reg_padding3 : ℕ
  pub reg_eflags : ℕ
  pub reg_esp : ℕ
  pub reg_ss : ℕ
  pub reg_padding4 : ℕ

-- `procstate_t`.
pub data ProcState : Type 0 where
  p_empty : ProcState
  p_runnable : ProcState
  p_blocked : ProcState
  p_zombie : ProcState

-- The bit pattern of -1.
abbrev pub minus_one : ℕ
minus_one = 2 ^ 32 - 1

abbrev pub is_runnable : ProcState → Bool
is_runnable p_runnable = true
is_runnable p_empty = false
is_runnable p_blocked = false
is_runnable p_zombie = false

abbrev pub is_empty : ProcState → Bool
is_empty p_empty = true
is_empty p_runnable = false
is_empty p_blocked = false
is_empty p_zombie = false

abbrev pub is_zombie : ProcState → Bool
is_zombie p_zombie = true
is_zombie p_empty = false
is_zombie p_runnable = false
is_zombie p_blocked = false

-- `memset(..., 0, sizeof(registers_t))`.
abbrev pub no_registers : Registers
no_registers = record {
  reg_edi = 0;
  reg_esi = 0;
  reg_ebp = 0;
  reg_original_esp = 0;
  reg_ebx = 0;
  reg_edx = 0;
  reg_ecx = 0;
  reg_eax = 0;
  reg_es = 0;
  reg_padding1 = 0;
  reg_ds = 0;
  reg_padding2 = 0;
  reg_intno = 0;
  reg_err = 0;
  reg_eip = 0;
  reg_cs = 0;
  reg_padding3 = 0;
  reg_eflags = 0;
  reg_esp = 0;
  reg_ss = 0;
  reg_padding4 = 0;
}
