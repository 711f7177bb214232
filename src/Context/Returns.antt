-- ===== src/Context/Returns.antt =====
-- A switch saves a context, and a later switch back to it returns to the caller.
use libproxc.Base.{ℕ, ◌+◌, ◌<◌, ◌≡◌, ap, sym, ◌∙◌, arith}
use mathlib.Core.Path.{subst}
use libproxc.Context.Machine.{Machine, run}
use libproxc.Context.Switch.{ctx_switch}
use libproxc.Context.Switched.{Outside, Apart, switch-Switched}

-- The registers of a caller after a call that keeps them.
pub record Returned (m m' : Machine) : Type 0 where
  pub rbx : m'.regs.rbx_ ≡ m.regs.rbx_
  pub rsp : m'.regs.rsp_ ≡ m.regs.rsp_ + 8
  pub rbp : m'.regs.rbp_ ≡ m.regs.rbp_
  pub r12 : m'.regs.r12_ ≡ m.regs.r12_
  pub r13 : m'.regs.r13_ ≡ m.regs.r13_
  pub r14 : m'.regs.r14_ ≡ m.regs.r14_
  pub r15 : m'.regs.r15_ ≡ m.regs.r15_
  pub pc : m'.pc ≡ m.mem m.regs.rsp_

-- A context is switched away from in `m`, and later, in `m2`, switched back to; in between its Ctx
-- has not been written. In both switches the two Ctx lie apart, and the stack pointers, of the caller
-- and of the context switched to, do not point into the Ctx that is saved to. Then the switch back
-- returns to where the first call was made, with %rsp as after a return and every callee-saved
-- register as it was.
pub switch-returns :
    (m m2 : Machine)
    → Outside m.regs.rsp_ m.regs.rdi_
    → Apart m.regs.rdi_ m.regs.rsi_
    → Outside (m.mem (m.regs.rsi_ + 0x08)) m.regs.rdi_
    → m2.regs.rsi_ ≡ m.regs.rdi_
    → ((k : ℕ) → k < 72 → m2.mem (m.regs.rdi_ + k) ≡ (run ctx_switch m).mem (m.regs.rdi_ + k))
    → Outside m2.regs.rsp_ m2.regs.rdi_
    → Apart m2.regs.rdi_ m.regs.rdi_
    → Outside m.regs.rsp_ m2.regs.rdi_
    → Returned m (run ctx_switch m2)
switch-returns m m2 out apart top back kept out2 apart2 top2 =
    let h = (switch-Switched m out apart top).saves in
    let at = λ (k : ℕ) (small : k < 72). ap (λ (c : ℕ). m2.mem (c + k)) back ∙ kept k small in
    let sp = at 0x08 (omega arith) ∙ h.rsp in
    let w =
      switch-Switched m2 out2 (subst (Apart m2.regs.rdi_) (sym back) apart2)
        (subst (λ a. Outside a m2.regs.rdi_) (sym sp) top2) in
    record {
      rbx = w.rbx ∙ at 0x00 (omega arith) ∙ h.rbx;
      rsp = w.rsp ∙ ap (λ (v : ℕ). v + 8) sp;
      rbp = w.rbp ∙ at 0x10 (omega arith) ∙ h.rbp;
      r12 = w.r12 ∙ at 0x18 (omega arith) ∙ h.r12;
      r13 = w.r13 ∙ at 0x20 (omega arith) ∙ h.r13;
      r14 = w.r14 ∙ at 0x28 (omega arith) ∙ h.r14;
      r15 = w.r15 ∙ at 0x30 (omega arith) ∙ h.r15;
      pc = w.pc ∙ at 0x38 (omega arith) ∙ h.rip_at;
    }
