-- ===== src/Context/Switched.antt =====
-- What ctx_switch does on x86-64.
use libproxc.Base.{
  ℕ, ◌+◌, ◌≤◌, ◌<◌, ◌≡◌, ◌⊎◌, inl, inr, refl, ap, sym, ◌∙◌, arith, ◌==◌, false, update,
}
use mathlib.Core.Path.{subst}
use libproxc.Context.Machine.{Regs, Machine, run}
use libproxc.Context.Switch.{ctx_switch}

-- The word at `a` is not one of the nine of the Ctx at `c`.
abbrev pub Outside : (a c : ℕ) → Type 0
Outside a c = (a + 8 ≤ c) ⊎ (c + 72 ≤ a)

-- Two Ctx that do not overlap.
abbrev pub Apart : (c d : ℕ) → Type 0
Apart c d = (c + 72 ≤ d) ⊎ (d + 72 ≤ c)

-- Memory after the first seven stores of both routines to the Ctx at `c`, and after the eighth.
abbrev stored : (ℕ → ℕ) → (c : ℕ) → Regs → ℕ → ℕ
stored mem c r =
    update
      (update
        (update
          (update
            (update (update (update mem (c + 0x00) r.rbx_) (c + 0x08) r.rsp_) (c + 0x10) r.rbp_)
            (c + 0x18) r.r12_)
          (c + 0x20) r.r13_)
        (c + 0x28) r.r14_)
      (c + 0x30) r.r15_

abbrev pub saved : (ℕ → ℕ) → (c rip : ℕ) → Regs → ℕ → ℕ
saved mem c rip r = update (stored mem c r) (c + 0x38) rip

-- The Ctx at `c` holds what a routine saves.
pub record Saves (mem : ℕ → ℕ) (c rip : ℕ) (r : Regs) : Type 0 where
  pub rbx : mem (c + 0x00) ≡ r.rbx_
  pub rsp : mem (c + 0x08) ≡ r.rsp_
  pub rbp : mem (c + 0x10) ≡ r.rbp_
  pub r12 : mem (c + 0x18) ≡ r.r12_
  pub r13 : mem (c + 0x20) ≡ r.r13_
  pub r14 : mem (c + 0x28) ≡ r.r14_
  pub r15 : mem (c + 0x30) ≡ r.r15_
  pub rip_at : mem (c + 0x38) ≡ rip

saved-Saves : (mem : ℕ → ℕ) (c rip : ℕ) (r : Regs) → Saves (saved mem c rip r) c rip r
saved-Saves mem c rip r = record {
  rbx = ground arith;
  rsp = ground arith;
  rbp = ground arith;
  r12 = ground arith;
  r13 = ground arith;
  r14 = ground arith;
  r15 = ground arith;
  rip_at = ground arith;
}

saved-Outside :
    (mem : ℕ → ℕ) (c rip : ℕ) (r : Regs) (a : ℕ) → Outside a c → saved mem c rip r a ≡ mem a
saved-Outside mem c rip r a out = ground arith

-- ctx_switch in `m` has led to `m'`: the callee-saved registers, %rdi and %rip are those of the Ctx at
-- `to`, the stack is as after the return, those of the caller are in the Ctx at `from`, and memory
-- has changed nowhere else but at the top of the stack switched to.
pub record Switched (m m' : Machine) : Type 0 where
  pub rbx : m'.regs.rbx_ ≡ m.mem (m.regs.rsi_ + 0x00)
  pub rsp : m'.regs.rsp_ ≡ m.mem (m.regs.rsi_ + 0x08) + 8
  pub rbp : m'.regs.rbp_ ≡ m.mem (m.regs.rsi_ + 0x10)
  pub r12 : m'.regs.r12_ ≡ m.mem (m.regs.rsi_ + 0x18)
  pub r13 : m'.regs.r13_ ≡ m.mem (m.regs.rsi_ + 0x20)
  pub r14 : m'.regs.r14_ ≡ m.mem (m.regs.rsi_ + 0x28)
  pub r15 : m'.regs.r15_ ≡ m.mem (m.regs.rsi_ + 0x30)
  pub rdi : m'.regs.rdi_ ≡ m.mem (m.regs.rsi_ + 0x40)
  pub pc : m'.pc ≡ m.mem (m.regs.rsi_ + 0x38)
  pub saves : Saves m'.mem m.regs.rdi_ (m.mem m.regs.rsp_) m.regs
  pub rest :
      (a : ℕ)
      → Outside a m.regs.rdi_
      → (a == m.mem (m.regs.rsi_ + 0x08)) ≡ false
      → m'.mem a ≡ m.mem a

-- The machine after ctx_switch, `mem` being the memory after its stores to `from`.
abbrev loaded : (ℕ → ℕ) → Regs → Machine
loaded mem r =
    let sp = mem (r.rsi_ + 0x08) in
    let rip = mem (r.rsi_ + 0x38) in
    let mem' : ℕ → ℕ = update mem (sp + 0x00) rip in
    record {
      regs = record {
        rax_ = rip;
        rbx_ = mem (r.rsi_ + 0x00);
        rsp_ = sp + 8;
        rbp_ = mem (r.rsi_ + 0x10);
        rdi_ = mem (r.rsi_ + 0x40);
        rsi_ = r.rsi_;
        r12_ = mem (r.rsi_ + 0x18);
        r13_ = mem (r.rsi_ + 0x20);
        r14_ = mem (r.rsi_ + 0x28);
        r15_ = mem (r.rsi_ + 0x30);
      };
      mem = mem';
      pc = mem' sp;
    }

-- The return address, which is read after seven of the stores.
return_address :
    (mem : ℕ → ℕ) (c : ℕ) (r : Regs)
    → Outside r.rsp_ c
    → stored mem c r (r.rsp_ + 0x00) ≡ mem r.rsp_
return_address mem c r out = let at : r.rsp_ + 0x00 ≡ r.rsp_ = omega arith in rw at (ground arith)

switch-loaded :
    (m : Machine)
    → Outside m.regs.rsp_ m.regs.rdi_
    → run ctx_switch m ≡ loaded (saved m.mem m.regs.rdi_ (m.mem m.regs.rsp_) m.regs) m.regs
unfolding ctx_switch
switch-loaded m out =
    ap (λ (v : ℕ). loaded (saved m.mem m.regs.rdi_ v m.regs) m.regs)
      (return_address m.mem m.regs.rdi_ m.regs out)

-- A word of a Ctx that lies apart.
word-Apart : (c d k : ℕ) → Apart c d → k + 8 ≤ 72 → Outside (d + k) c
word-Apart c d k (inl h) small = inr (omega arith)
word-Apart c d k (inr h) small = inl (omega arith)

update-top : (f : ℕ → ℕ) (a v : ℕ) → update f (a + 0x00) v a ≡ v
update-top f a v = ground arith

update-top_ne : (f : ℕ → ℕ) (a v b : ℕ) → (b == a) ≡ false → update f (a + 0x00) v b ≡ f b
update-top_ne f a v b ne = ground arith

Saves-top :
    (f : ℕ → ℕ) (c rip : ℕ) (r : Regs) (a v : ℕ)
    → Outside a c
    → Saves f c rip r
    → Saves (update f (a + 0x00) v) c rip r
Saves-top f c rip r a v out h = record {
  rbx = kept 0x00 (omega arith) ∙ h.rbx;
  rsp = kept 0x08 (omega arith) ∙ h.rsp;
  rbp = kept 0x10 (omega arith) ∙ h.rbp;
  r12 = kept 0x18 (omega arith) ∙ h.r12;
  r13 = kept 0x20 (omega arith) ∙ h.r13;
  r14 = kept 0x28 (omega arith) ∙ h.r14;
  r15 = kept 0x30 (omega arith) ∙ h.r15;
  rip_at = kept 0x38 (omega arith) ∙ h.rip_at;
}
  where
    kept : (k : ℕ) → k < 72 → update f (a + 0x00) v (c + k) ≡ f (c + k)
    kept k small = ground arith

Switched-loaded :
    (mem : ℕ → ℕ) (rip pc : ℕ) (r : Regs)
    → Apart r.rdi_ r.rsi_
    → Outside (mem (r.rsi_ + 0x08)) r.rdi_
    → mem r.rsp_ ≡ rip
    → Switched (record { regs = r; mem = mem; pc = pc }) (loaded (saved mem r.rdi_ rip r) r)
Switched-loaded mem rip pc r apart out ret =
    let from = r.rdi_ in
    let sm = saved mem from rip r in
    let sp = sm (r.rsi_ + 0x08) in
    let word = λ (k : ℕ) (h : k + 8 ≤ 72).
      saved-Outside mem from rip r (r.rsi_ + k) (word-Apart from r.rsi_ k apart h) in
    let at : sp ≡ mem (r.rsi_ + 0x08) = word 0x08 (omega arith) in
    record {
      rbx = word 0x00 (omega arith);
      rsp = ap (λ (v : ℕ). v + 8) (word 0x08 (omega arith));
      rbp = word 0x10 (omega arith);
      r12 = word 0x18 (omega arith);
      r13 = word 0x20 (omega arith);
      r14 = word 0x28 (omega arith);
      r15 = word 0x30 (omega arith);
      rdi = word 0x40 (omega arith);
      pc = update-top sm sp (sm (r.rsi_ + 0x38)) ∙ word 0x38 (omega arith);
      saves = rw ret (
          Saves-top sm from rip r sp (sm (r.rsi_ + 0x38)) (rw at out) (saved-Saves mem from rip r));
      rest = λ a free other.
          update-top_ne sm sp (sm (r.rsi_ + 0x38)) a (rw at other)
          ∙ saved-Outside mem from rip r a free;
    }

-- A call of ctx_switch whose return address is not in `from`, which lies apart from `to`, and with
-- the stack pointer in `to` not pointing into `from`: what it does to the registers and to memory.
pub switch-Switched :
    (m : Machine)
    → Outside m.regs.rsp_ m.regs.rdi_
    → Apart m.regs.rdi_ m.regs.rsi_
    → Outside (m.mem (m.regs.rsi_ + 0x08)) m.regs.rdi_
    → Switched m (run ctx_switch m)
switch-Switched m out apart top =
    subst (Switched m) (sym (switch-loaded m out))
      (Switched-loaded m.mem (m.mem m.regs.rsp_) m.pc m.regs apart top refl)
