-- ===== src/Context/Machine.antt =====
-- The part of an x86-64 machine that the assembly of context.c uses. Memory is read by words of eight
-- bytes, each at the address of its first byte: a Ctx and a stack pointer are multiples of eight.
use libproxc.Base.{ℕ, ◌+◌, List, [], ◌∷◌, update}

pub data Reg : Type 0 where
  rax rbx rsp rbp rdi rsi r12 r13 r14 r15 : Reg

pub record Regs : Type 0 where
  pub rax_ : ℕ
  pub rbx_ : ℕ
  pub rsp_ : ℕ
  pub rbp_ : ℕ
  pub rdi_ : ℕ
  pub rsi_ : ℕ
  pub r12_ : ℕ
  pub r13_ : ℕ
  pub r14_ : ℕ
  pub r15_ : ℕ

pub record Machine : Type 0 where
  pub regs : Regs
  pub mem : ℕ → ℕ
  pub pc : ℕ

abbrev pub get_reg : Reg → Regs → ℕ
get_reg rax r = r.rax_
get_reg rbx r = r.rbx_
get_reg rsp r = r.rsp_
get_reg rbp r = r.rbp_
get_reg rdi r = r.rdi_
get_reg rsi r = r.rsi_
get_reg r12 r = r.r12_
get_reg r13 r = r.r13_
get_reg r14 r = r.r14_
get_reg r15 r = r.r15_

abbrev pub set_reg : Reg → ℕ → Regs → Regs
set_reg rax v r = record r { rax_ = v }
set_reg rbx v r = record r { rbx_ = v }
set_reg rsp v r = record r { rsp_ = v }
set_reg rbp v r = record r { rbp_ = v }
set_reg rdi v r = record r { rdi_ = v }
set_reg rsi v r = record r { rsi_ = v }
set_reg r12 v r = record r { r12_ = v }
set_reg r13 v r = record r { r13_ = v }
set_reg r14 v r = record r { r14_ = v }
set_reg r15 v r = record r { r15_ = v }

-- `store r off base` is `movq r, off(base)`, `load off base r` is `movq off(base), r`, and `clear r`
-- is `xor r, r`.
pub data Instr : Type 0 where
  store : (r : Reg) (off : ℕ) (base : Reg) → Instr
  load : (off : ℕ) (base r : Reg) → Instr
  clear : (r : Reg) → Instr
  ret : Instr

abbrev pub exec : Instr → Machine → Machine
exec (store r off base) m = record m {
  mem = update m.mem (get_reg base m.regs + off) (get_reg r m.regs);
}
exec (load off base r) m = record m { regs = set_reg r (m.mem (get_reg base m.regs + off)) m.regs }
exec (clear r) m = record m { regs = set_reg r 0 m.regs }
exec ret m = record m { pc = m.mem m.regs.rsp_; regs = record m.regs { rsp_ = m.regs.rsp_ + 8 } }

abbrev pub run : List Instr → Machine → Machine
run [] m = m
run (i ∷ is) m = run is (exec i m)
