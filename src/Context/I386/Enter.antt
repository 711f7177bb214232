-- ===== src/Context/I386/Enter.antt =====
-- The first switch to a new context on i386.
use libproxc.Base.{
  ℕ, refl, true, List, [], ◌∷◌, ◌+◌, ◌%◌, ◌≤◌, ◌<◌, ◌≡◌, ◌⊎◌, ap, sym, ◌∙◌, arith, false, some,
  ◌==◌,
}
use mathlib.Core.Path.{subst}
use libproxc.Context.Switch.{NewProc}
use libproxc.Context.I386.{
  Instr32, movl_to, movl_from, ret32, eax, ebx, edx, esi, edi, ebp, esp, Machine32, run32,
  ctx_init32, ctx_switch32, first_sp32,
}

-- The entry of proc_mainfxn(proc): the return address is at the stack pointer, the argument four above
-- it, both on the stack of the PROC. The stack pointer above the return address is eight above a
-- multiple of 16.
pub record Entered32 (trampoline mainfxn : ℕ) (p : NewProc) (m : Machine32) : Type 0 where
  pub pc : m.pc ≡ mainfxn
  pub arg : m.mem (m.esp_ + 4) ≡ p.proc
  pub return : m.mem m.esp_ ≡ trampoline
  pub offset : (m.esp_ + 4) % 16 ≡ 8
  pub low : p.stack_ptr ≤ m.esp_
  pub high : m.esp_ + 8 ≤ p.stack_ptr + p.stack_size

-- The word at `a` is not in the Ctx at `c`.
abbrev pub Beside : (a c : ℕ) → Type 0
Beside a c = (a + 4 ≤ c) ⊎ (c + 24 ≤ a)

-- The first half of ctx_switch, which saves to `from`, and the second, which loads from `to`.
abbrev saves : List Instr32
saves =
    movl_from 0x04 esp edx
    ∷ movl_to ebx 0x00 edx
    ∷ movl_to esi 0x04 edx
    ∷ movl_to edi 0x08 edx
    ∷ movl_to ebp 0x0C edx
    ∷ movl_to esp 0x10 edx
    ∷ movl_from 0x00 esp eax
    ∷ movl_to eax 0x14 edx
    ∷ []

abbrev loads : List Instr32
loads =
    movl_from 0x08 esp edx
    ∷ movl_from 0x00 edx ebx
    ∷ movl_from 0x04 edx esi
    ∷ movl_from 0x08 edx edi
    ∷ movl_from 0x0C edx ebp
    ∷ movl_from 0x10 edx esp
    ∷ movl_from 0x14 edx eax
    ∷ movl_to eax 0x00 esp
    ∷ ret32
    ∷ []

switch-halves : (m : Machine32) → run32 ctx_switch32 m ≡ run32 loads (run32 saves m)
unfolding ctx_switch32
switch-halves m = refl

saves-Beside :
    (m : Machine32) (a : ℕ) → Beside a (m.mem (m.esp_ + 0x04)) → (run32 saves m).mem a ≡ m.mem a
saves-Beside m a out =
    let f = m.mem (m.esp_ + 0x04) in
    let n0 : (f + 0x00 == a) ≡ false = ground arith in
    let n1 : (f + 0x04 == a) ≡ false = ground arith in
    let n2 : (f + 0x08 == a) ≡ false = ground arith in
    let n3 : (f + 0x0C == a) ≡ false = ground arith in
    let n4 : (f + 0x10 == a) ≡ false = ground arith in
    let n5 : (f + 0x14 == a) ≡ false = ground arith in rw (n5, n4, n3, n2, n1, n0)

-- What the loads leave.
record Loaded (n n' : Machine32) (t : ℕ) : Type 0 where
  pc : n'.pc ≡ n.mem (t + 0x14)
  esp : n'.esp_ ≡ n.mem (t + 0x10) + 4
  rest : (a : ℕ) → (n.mem (t + 0x10) + 0 == a) ≡ false → n'.mem a ≡ n.mem a

loads-Loaded : (n : Machine32) → Loaded n (run32 loads n) (n.mem (n.esp_ + 0x08))
loads-Loaded n =
    let sp = n.mem (n.mem (n.esp_ + 0x08) + 0x10) in
    let same : (sp + 0 == sp) ≡ true = ground arith in
    record { pc = rw same; esp = refl; rest = λ a ne. rw ne }

init-words :
    (trampoline mainfxn : ℕ) (p : NewProc) (m : Machine32)
    → let c = m.mem (m.esp_ + 0x04) in
      let mem : ℕ → ℕ = (ctx_init32 trampoline mainfxn (some p) m).mem in
      Beside (first_sp32 p + 4) c
      → Beside (first_sp32 p + 8) c
      → (mem (c + 0x10) ≡ first_sp32 p)
        × (mem (c + 0x14) ≡ mainfxn)
        × (mem (first_sp32 p + 4) ≡ trampoline)
        × (mem (first_sp32 p + 8) ≡ p.proc)
unfolding ctx_init32
init-words trampoline mainfxn p m out out' =
    (ground arith, ground arith, ground arith, ground arith)

first_sp_bounds :
    (p : NewProc)
    → 32 ≤ p.stack_size
    → ((first_sp32 p + 4 + 4) % 16 ≡ 8)
      × (p.stack_ptr ≤ first_sp32 p + 4)
      × (first_sp32 p + 4 + 8 ≤ p.stack_ptr + p.stack_size)
first_sp_bounds p room = (omega arith, omega arith, omega arith)

-- On i386 ctx_init makes the context of a PROC, whose stack has at least 32 bytes, in a Ctx that holds
-- neither the return address nor the argument on the new stack. Later, in `m2`, another context switches
-- to it; in between neither the Ctx nor these two words have been written. The two Ctx lie apart, and
-- neither the argument `to` nor these two words lie in the Ctx that is saved to. Then the switch enters
-- proc_mainfxn with _trampoline as its return address and the PROC as its argument, on the stack's
-- bounds, with the stack pointer above the return address eight above a multiple of 16.
pub switch-Entered32 :
    (trampoline mainfxn c : ℕ) (p : NewProc) (m m2 : Machine32)
    → m.mem (m.esp_ + 0x04) ≡ c
    → 32 ≤ p.stack_size
    → Beside (first_sp32 p + 4) c
    → Beside (first_sp32 p + 8) c
    → m2.mem (m2.esp_ + 0x08) ≡ c
    → ((k : ℕ) → k < 24 → m2.mem (c + k) ≡ (ctx_init32 trampoline mainfxn (some p) m).mem (c + k))
    → m2.mem (first_sp32 p + 4) ≡ (ctx_init32 trampoline mainfxn (some p) m).mem (first_sp32 p + 4)
    → m2.mem (first_sp32 p + 8) ≡ (ctx_init32 trampoline mainfxn (some p) m).mem (first_sp32 p + 8)
    → Beside (m2.esp_ + 0x08) (m2.mem (m2.esp_ + 0x04))
    → (m2.mem (m2.esp_ + 0x04) + 24 ≤ c) ⊎ (c + 24 ≤ m2.mem (m2.esp_ + 0x04))
    → Beside (first_sp32 p + 4) (m2.mem (m2.esp_ + 0x04))
    → Beside (first_sp32 p + 8) (m2.mem (m2.esp_ + 0x04))
    → Entered32 trampoline mainfxn p (run32 ctx_switch32 m2)
switch-Entered32 trampoline mainfxn c p m m2 at room out out' to kept kept4 kept8 arg_out apart top
      top' =
    let sp = first_sp32 p in
    let init = (ctx_init32 trampoline mainfxn (some p) m).mem in
    let (sp_at, pc_at, ret_at, proc_at) =
      subst
        (λ d.
          (init (d + 0x10) ≡ sp)
          × (init (d + 0x14) ≡ mainfxn)
          × (init (sp + 4) ≡ trampoline)
          × (init (sp + 8) ≡ p.proc))
        at
        (init-words trampoline mainfxn p m (subst (Beside (sp + 4)) (sym at) out)
          (subst (Beside (sp + 8)) (sym at) out')) in
    let n : Machine32 = run32 saves m2 in
    let n' : Machine32 = run32 loads n in
    let w : Loaded n n' c =
      subst (Loaded n n') (saves-Beside m2 (m2.esp_ + 0x08) arg_out ∙ to) (loads-Loaded n) in
    let sp_of : n.mem (c + 0x10) ≡ sp =
      saves-Beside m2 (c + 0x10) (ground (arith, apart)) ∙ kept 0x10 (omega arith) ∙ sp_at in
    let pc_of : n.mem (c + 0x14) ≡ mainfxn =
      saves-Beside m2 (c + 0x14) (ground (arith, apart)) ∙ kept 0x14 (omega arith) ∙ pc_at in
    let rsp : n'.esp_ ≡ sp + 4 = w.esp ∙ ap (λ v. v + 4) sp_of in
    let ne4 : (n.mem (c + 0x10) + 0 == sp + 4) ≡ false = rw sp_of (ground arith) in
    let ne8 : (n.mem (c + 0x10) + 0 == sp + 8) ≡ false = rw sp_of (ground arith) in
    let (offset, low, high) = first_sp_bounds p room in
    subst (Entered32 trampoline mainfxn p) (sym (switch-halves m2)) (record {
      pc = w.pc ∙ pc_of;
      arg =
          ap (λ a. n'.mem (a + 4)) rsp
          ∙ ap n'.mem (omega arith)
          ∙ w.rest (sp + 8) ne8
          ∙ saves-Beside m2 (sp + 8) top'
          ∙ kept8
          ∙ proc_at;
      return = ap n'.mem rsp ∙ w.rest (sp + 4) ne4 ∙ saves-Beside m2 (sp + 4) top ∙ kept4 ∙ ret_at;
      offset = subst (λ a. (a + 4) % 16 ≡ 8) (sym rsp) offset;
      low = subst (λ a. p.stack_ptr ≤ a) (sym rsp) low;
      high = subst (λ a. a + 8 ≤ p.stack_ptr + p.stack_size) (sym rsp) high;
    })
