-- ===== src/Context/I386.antt =====
-- The assembly of context.c for i386, _ctx_get and ctx_switch, and what ctx_init does there. Memory is
-- read by words of four bytes, each at the address of its first byte.
pub mod Enter
use libproxc.Base.{ℕ, ◌+◌, ◌-◌, Option, none, some, List, [], ◌∷◌, update}
use libproxc.Context.Switch.{NewProc, align16}

pub data Reg32 : Type 0 where
  eax ebx edx esi edi ebp esp : Reg32

pub record Machine32 : Type 0 where
  pub eax_ : ℕ
  pub ebx_ : ℕ
  pub edx_ : ℕ
  pub esi_ : ℕ
  pub edi_ : ℕ
  pub ebp_ : ℕ
  pub esp_ : ℕ
  pub pc : ℕ
  pub mem : ℕ → ℕ

abbrev pub get32 : Reg32 → Machine32 → ℕ
get32 eax m = m.eax_
get32 ebx m = m.ebx_
get32 edx m = m.edx_
get32 esi m = m.esi_
get32 edi m = m.edi_
get32 ebp m = m.ebp_
get32 esp m = m.esp_

abbrev pub set32 : Reg32 → ℕ → Machine32 → Machine32
set32 eax v m = record m { eax_ = v }
set32 ebx v m = record m { ebx_ = v }
set32 edx v m = record m { edx_ = v }
set32 esi v m = record m { esi_ = v }
set32 edi v m = record m { edi_ = v }
set32 ebp v m = record m { ebp_ = v }
set32 esp v m = record m { esp_ = v }

-- `movl r, off(base)`, `movl off(base), r`, `xor r, r` and `ret`.
pub data Instr32 : Type 0 where
  movl_to : (r : Reg32) (off : ℕ) (base : Reg32) → Instr32
  movl_from : (off : ℕ) (base r : Reg32) → Instr32
  xor_self : (r : Reg32) → Instr32
  ret32 : Instr32

abbrev pub exec32 : Instr32 → Machine32 → Machine32
exec32 (movl_to r off base) m = record m { mem = update m.mem (get32 base m + off) (get32 r m) }
exec32 (movl_from off base r) m = set32 r (m.mem (get32 base m + off)) m
exec32 (xor_self r) m = set32 r 0 m
exec32 ret32 m = record m { pc = m.mem m.esp_; esp_ = m.esp_ + 4 }

abbrev pub run32 : List Instr32 → Machine32 → Machine32
run32 [] m = m
run32 (i ∷ is) m = run32 is (exec32 i m)

-- ctx is at 4(%esp).
unfoldable pub ctx_get32 : List Instr32
ctx_get32 =
    movl_from 0x04 esp edx
    ∷ movl_to ebx 0x00 edx
    ∷ movl_to esi 0x04 edx
    ∷ movl_to edi 0x08 edx
    ∷ movl_to ebp 0x0C edx
    ∷ movl_to esp 0x10 edx
    ∷ movl_from 0x00 esp eax
    ∷ movl_to eax 0x14 edx
    ∷ xor_self eax
    ∷ ret32
    ∷ []

-- from is at 4(%esp), to at 8(%esp).
unfoldable pub ctx_switch32 : List Instr32
ctx_switch32 =
    movl_from 0x04 esp edx
    ∷ movl_to ebx 0x00 edx
    ∷ movl_to esi 0x04 edx
    ∷ movl_to edi 0x08 edx
    ∷ movl_to ebp 0x0C edx
    ∷ movl_to esp 0x10 edx
    ∷ movl_from 0x00 esp eax
    ∷ movl_to eax 0x14 edx
    ∷ movl_from 0x08 esp edx
    ∷ movl_from 0x00 edx ebx
    ∷ movl_from 0x04 edx esi
    ∷ movl_from 0x08 edx edi
    ∷ movl_from 0x0C edx ebp
    ∷ movl_from 0x10 edx esp
    ∷ movl_from 0x14 edx eax
    ∷ movl_to eax 0x00 esp
    ∷ ret32
    ∷ []

-- The top of the stack, aligned, less four words.
abbrev pub first_sp32 : NewProc → ℕ
first_sp32 p = align16 (p.stack_ptr + p.stack_size) - 16

-- ctx_init: `m` is the machine at the call of _ctx_get.
unfoldable pub ctx_init32 : (trampoline mainfxn : ℕ) → Option NewProc → Machine32 → Machine32
unfolding ctx_get32
ctx_init32 trampoline mainfxn none m = run32 ctx_get32 m
ctx_init32 trampoline mainfxn (some p) m =
    let c = m.mem (m.esp_ + 0x04) in
    let got : Machine32 = run32 ctx_get32 m in
    let sp = first_sp32 p in
    let mem1 : ℕ → ℕ = update got.mem (sp + 4) trampoline in
    let mem2 : ℕ → ℕ = update mem1 (sp + 8) p.proc in
    let mem3 : ℕ → ℕ = update mem2 (c + 0x14) mainfxn in
    let mem4 : ℕ → ℕ = update mem3 (c + 0x0C) (sp + 4) in
    record got { mem = update mem4 (c + 0x10) sp }
