-- ===== src/Context/Fresh.antt =====
-- The first switch to a new context enters proc_mainfxn, on a stack in order.
use libproxc.Base.{ℕ, ◌+◌, ◌%◌, ◌≤◌, ◌<◌, ◌≡◌, ap, sym, ◌∙◌, arith, false, some, ◌==◌}
use mathlib.Core.Path.{subst}
use libproxc.Context.Machine.{Machine, run}
use libproxc.Context.Switch.{ctx_init, ctx_switch, NewProc, first_sp}
use libproxc.Context.Switched.{Outside, Apart, switch-Switched}

-- The entry of proc_mainfxn(proc) as the calling convention has it: its argument is in %rdi, the
-- stack pointer is at the return address and is eight below a multiple of 16, and the return address
-- lies on the stack of the PROC.
pub record Entered (trampoline mainfxn : ℕ) (p : NewProc) (m : Machine) : Type 0 where
  pub pc : m.pc ≡ mainfxn
  pub arg : m.regs.rdi_ ≡ p.proc
  pub return : m.mem m.regs.rsp_ ≡ trampoline
  pub aligned : (m.regs.rsp_ + 8) % 16 ≡ 0
  pub low : p.stack_ptr ≤ m.regs.rsp_
  pub high : m.regs.rsp_ + 8 ≤ p.stack_ptr + p.stack_size

-- The words of a Ctx after ctx_init.
init-words :
    (trampoline mainfxn : ℕ) (p : NewProc) (m : Machine)
    → let c = m.regs.rdi_ in
      let mem : ℕ → ℕ = (ctx_init trampoline mainfxn (some p) m).mem in
      Outside (first_sp p + 8) c
      → (mem (c + 0x08) ≡ first_sp p)
        × (mem (c + 0x38) ≡ mainfxn)
        × (mem (c + 0x40) ≡ p.proc)
        × (mem (first_sp p + 8) ≡ trampoline)
unfolding ctx_init
init-words trampoline mainfxn p m out = (ground arith, ground arith, ground arith, ground arith)

first_sp_bounds :
    (p : NewProc)
    → 48 ≤ p.stack_size
    → ((first_sp p + 8 + 8) % 16 ≡ 0)
      × (p.stack_ptr ≤ first_sp p + 8)
      × (first_sp p + 8 + 8 ≤ p.stack_ptr + p.stack_size)
first_sp_bounds p room = (omega arith, omega arith, omega arith)

-- ctx_init makes the context of a PROC, whose stack has at least 48 bytes, in a Ctx at `c` that is not
-- where the stack begins. Later, in `m2`, another context switches to it; in between neither the Ctx
-- nor the word of the return address has been written. The two Ctx lie apart, and neither the stack
-- pointer of the switching context nor the first words of the new stack lie in the Ctx that is saved
-- to. Then the switch enters proc_mainfxn with the PROC as its argument and _trampoline as its return
-- address, on a stack that is aligned as the calling convention wants, and within its bounds.
pub switch-Entered :
    (trampoline mainfxn : ℕ) (p : NewProc) (m m2 : Machine)
    → 48 ≤ p.stack_size
    → Outside (first_sp p + 8) m.regs.rdi_
    → m2.regs.rsi_ ≡ m.regs.rdi_
    → ((k : ℕ)
        → k < 72
        → m2.mem (m.regs.rdi_ + k) ≡ (ctx_init trampoline mainfxn (some p) m).mem (m.regs.rdi_ + k))
    → m2.mem (first_sp p + 8) ≡ (ctx_init trampoline mainfxn (some p) m).mem (first_sp p + 8)
    → Outside m2.regs.rsp_ m2.regs.rdi_
    → Apart m2.regs.rdi_ m.regs.rdi_
    → Outside (first_sp p) m2.regs.rdi_
    → Outside (first_sp p + 8) m2.regs.rdi_
    → Entered trampoline mainfxn p (run ctx_switch m2)
switch-Entered trampoline mainfxn p m m2 room out to kept kept_top out2 apart top top' =
    let (sp_at, rip_at, arg_at, ret_at) = init-words trampoline mainfxn p m out in
    let at = λ (k : ℕ) (small : k < 72). ap (λ (c : ℕ). m2.mem (c + k)) to ∙ kept k small in
    let sp = at 0x08 (omega arith) ∙ sp_at in
    let w =
      switch-Switched m2 out2 (subst (Apart m2.regs.rdi_) (sym to) apart)
        (subst (λ a. Outside a m2.regs.rdi_) (sym sp) top) in
    let rsp = w.rsp ∙ ap (λ (v : ℕ). v + 8) sp in
    let other : (first_sp p + 8 == first_sp p) ≡ false = ground arith in
    let (aligned, low, high) = first_sp_bounds p room in
    record {
      pc = w.pc ∙ at 0x38 (omega arith) ∙ rip_at;
      arg = w.rdi ∙ at 0x40 (omega arith) ∙ arg_at;
      return =
          ap (λ (a : ℕ). (run ctx_switch m2).mem a) rsp
          ∙ w.rest (first_sp p + 8) top' (subst (λ a. (first_sp p + 8 == a) ≡ false) (sym sp) other)
          ∙ kept_top
          ∙ ret_at;
      aligned = subst (λ a. (a + 8) % 16 ≡ 0) (sym rsp) aligned;
      low = subst (λ a. p.stack_ptr ≤ a) (sym rsp) low;
      high = subst (λ a. a + 8 ≤ p.stack_ptr + p.stack_size) (sym rsp) high;
    }
