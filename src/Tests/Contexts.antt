-- ===== src/Tests/Contexts.antt =====
-- The theorems on context switches at concrete inputs.
use libproxc.Base.{ℕ, refl, inl, inr, some, update, arith}
use libproxc.Context.Machine.{Machine, Regs, run}
use libproxc.Context.Switch.{ctx_init, ctx_switch, NewProc}
use libproxc.Context.Returns.{Returned, switch-returns}
use libproxc.Context.I386.{Machine32, run32, ctx_init32, ctx_switch32}
use libproxc.Context.I386.Enter.{Entered32, switch-Entered32}
use libproxc.Context.Fresh.{Entered, switch-Entered}

abbrev regs : (rdi rsi rsp : ℕ) → Regs
regs rdi rsi rsp = record {
  rax_ = 1;
  rbx_ = 2;
  rsp_ = rsp;
  rbp_ = 3;
  rdi_ = rdi;
  rsi_ = rsi;
  r12_ = 4;
  r13_ = 5;
  r14_ = 6;
  r15_ = 7;
}

-- A switch from the Ctx at 1000 to that at 2000, whose stack pointer is 6000.
abbrev first : Machine
first = record { regs = regs 1000 2000 4000; mem = update (λ _. 0) 2008 6000; pc = 99 }

-- The switch back, from a stack at 7000.
abbrev second : Machine
second = record { regs = regs 2000 1000 7000; mem = (run ctx_switch first).mem; pc = 98 }

switch-returns_example : Returned first (run ctx_switch second)
switch-returns_example =
    switch-returns first second (inr (omega arith)) (inl (omega arith)) (inr (omega arith)) refl
      (λ k small. refl) (inr (omega arith)) (inr (omega arith)) (inr (omega arith))

abbrev new_proc : NewProc
new_proc = record { proc = 1; stack_ptr = 8192; stack_size = 8192 }

-- ctx_init for the Ctx at 3000.
abbrev init : Machine
init = record { regs = regs 3000 0 4000; mem = λ _. 0; pc = 97 }

abbrev enters : Machine
enters = record {
  regs = regs 1000 3000 4000;
  mem = (ctx_init 55 66 (some new_proc) init).mem;
  pc = 96;
}

switch-Entered_example : Entered 55 66 new_proc (run ctx_switch enters)
switch-Entered_example =
    switch-Entered 55 66 new_proc init enters (omega arith) (inr (omega arith)) refl
      (λ k small. refl) refl (inr (omega arith)) (inl (omega arith)) (inr (omega arith))
      (inr (omega arith))

-- On i386, ctx_init for the Ctx at 3000.
abbrev init32 : Machine32
init32 = record {
  eax_ = 1;
  ebx_ = 2;
  edx_ = 3;
  esi_ = 4;
  edi_ = 5;
  ebp_ = 6;
  esp_ = 4000;
  pc = 97;
  mem = update (update (update (λ _. 0) 4004 3000) 5004 1000) 5008 3000;
}

-- The switch from the Ctx at 1000 to it.
abbrev enters32 : Machine32
enters32 = record init32 { esp_ = 5000; mem = (ctx_init32 55 66 (some new_proc) init32).mem }

switch-Entered32_example : Entered32 55 66 new_proc (run32 ctx_switch32 enters32)
unfolding ctx_init32
switch-Entered32_example =
    switch-Entered32 55 66 3000 new_proc init32 enters32 refl (omega arith) (inr (omega arith))
      (inr (omega arith)) refl (λ k small. refl) refl refl (inr (omega arith)) (inl (omega arith))
      (inr (omega arith)) (inr (omega arith))
