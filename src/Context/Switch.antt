-- ===== src/Context/Switch.antt =====
-- The assembly of context.c for x86-64, _ctx_get and ctx_switch, and ctx_init.
use libproxc.Base.{ℕ, ◌+◌, ◌-◌, ◌%◌, Option, none, some, List, [], ◌∷◌, update}
use libproxc.Context.Machine.{
  rax, rbx, rsp, rbp, rdi, rsi, r12, r13, r14, r15, Machine, Instr, store, load, clear, ret, run,
}

-- struct Ctx, as it lies in memory
pub record Ctx : Type 0 where
  pub rbx_ : ℕ
  pub rsp_ : ℕ
  pub rbp_ : ℕ
  pub r12_ : ℕ
  pub r13_ : ℕ
  pub r14_ : ℕ
  pub r15_ : ℕ
  pub rip_ : ℕ
  pub rdi_ : ℕ

abbrev pub ctx_at : (ℕ → ℕ) → ℕ → Ctx
ctx_at mem c = record {
  rbx_ = mem (c + 0x00);
  rsp_ = mem (c + 0x08);
  rbp_ = mem (c + 0x10);
  r12_ = mem (c + 0x18);
  r13_ = mem (c + 0x20);
  r14_ = mem (c + 0x28);
  r15_ = mem (c + 0x30);
  rip_ = mem (c + 0x38);
  rdi_ = mem (c + 0x40);
}

-- ctx is in %rdi.
unfoldable pub ctx_get : List Instr
ctx_get =
    store rbx 0x00 rdi
    ∷ store rsp 0x08 rdi
    ∷ store rbp 0x10 rdi
    ∷ store r12 0x18 rdi
    ∷ store r13 0x20 rdi
    ∷ store r14 0x28 rdi
    ∷ store r15 0x30 rdi
    ∷ load 0x00 rsp rax
    ∷ store rax 0x38 rdi
    ∷ clear rax
    ∷ ret
    ∷ []

-- from is in %rdi, to in %rsi.
unfoldable pub ctx_switch : List Instr
ctx_switch =
    store rbx 0x00 rdi
    ∷ store rsp 0x08 rdi
    ∷ store rbp 0x10 rdi
    ∷ store r12 0x18 rdi
    ∷ store r13 0x20 rdi
    ∷ store r14 0x28 rdi
    ∷ store r15 0x30 rdi
    ∷ load 0x00 rsp rax
    ∷ store rax 0x38 rdi
    ∷ load 0x00 rsi rbx
    ∷ load 0x08 rsi rsp
    ∷ load 0x10 rsi rbp
    ∷ load 0x18 rsi r12
    ∷ load 0x20 rsi r13
    ∷ load 0x28 rsi r14
    ∷ load 0x30 rsi r15
    ∷ load 0x40 rsi rdi
    ∷ load 0x38 rsi rax
    ∷ store rax 0x00 rsp
    ∷ ret
    ∷ []

-- What ctx_init needs of a PROC: its address, and its stack.
pub record NewProc : Type 0 where
  pub proc : ℕ
  pub stack_ptr : ℕ
  pub stack_size : ℕ

-- `& ~0xf` clears the low four bits.
abbrev pub align16 : ℕ → ℕ
align16 x = x - x % 16

-- The top of the stack, aligned, less four words.
abbrev pub first_sp : NewProc → ℕ
first_sp p = align16 (p.stack_ptr + p.stack_size) - 32

-- ctx_init: `m` is the machine at the call of _ctx_get, with ctx in %rdi; `trampoline` and `mainfxn`
-- are the addresses of _trampoline and proc_mainfxn.
unfoldable pub ctx_init : (trampoline mainfxn : ℕ) → Option NewProc → Machine → Machine
unfolding ctx_get
ctx_init trampoline mainfxn none m = run ctx_get m
ctx_init trampoline mainfxn (some p) m =
    let c = m.regs.rdi_ in
    let got : Machine = run ctx_get m in
    let sp = first_sp p in
    let mem1 : ℕ → ℕ = update got.mem (sp + 8) trampoline in
    let mem2 : ℕ → ℕ = update mem1 (c + 0x40) p.proc in
    let mem3 : ℕ → ℕ = update mem2 (c + 0x38) mainfxn in
    let mem4 : ℕ → ℕ = update mem3 (c + 0x10) (sp + 8) in
    record got { mem = update mem4 (c + 0x08) sp }
