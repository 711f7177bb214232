-- ===== src/Context/Ucontext.antt =====
-- ctx_init and ctx_switch of context.c in the version on ucontext, and what they rely on of the C
-- library.
use libproxc.Base.{
  ℕ, Bool, ◌≡◌, refl, ap, ◌∙◌, Option, none, some, ◌==◌, ==_refl, false, if◌then◌else◌, update,
  true, sym, ==_iff,
}

-- ucontext_t: the members that the code sets, and the rest.
pub record UContext (S : Type 0) : Type 0 where
  pub uc_link : Option ℕ
  pub ss_sp : ℕ
  pub ss_size : ℕ
  pub saved : S

-- The C library. `S` is what a context saves of a thread; a call's code is 0 where it succeeds.
pub record Ucontext : Type 1 where
  pub S : Type 0
  pub getcontext : (thread : S) → ℕ × UContext S
  pub makecontext : UContext S → (fxn arg : ℕ) → UContext S
  -- the code, the thread after the switch, and what is saved of the thread before
  pub swapcontext : (thread : S) → UContext S → ℕ × S × UContext S
  -- the thread is about to run `fxn arg` on the stack of the context, and then what it links to
  pub Enters : S → (fxn arg : ℕ) → UContext S → Type 0
  pub swap_made :
      (thread thread' : S) (c saved : UContext S) (fxn arg : ℕ)
      → swapcontext thread (makecontext c fxn arg) ≡ (0, thread', saved)
      → Enters thread' fxn arg c
  pub swap_back :
      (thread thread' other other' : S) (c saved saved' : UContext S)
      → swapcontext thread c ≡ (0, thread', saved)
      → swapcontext other saved ≡ (0, other', saved')
      → other' ≡ thread

module _ ⦃u : Ucontext⦄ where
  -- The running thread, and the contexts in memory.
  pub record Threads : Type 0 where
    pub thread : u.S
    pub ctxs : ℕ → UContext u.S

-- What ctx_init needs of a PROC: its address, that of its scheduler's context, and its stack.
pub record UProc : Type 0 where
  pub proc : ℕ
  pub sched_ctx : ℕ
  pub stack_ptr : ℕ
  pub stack_size : ℕ

module _ ⦃u : Ucontext⦄ (proc_mainfxn : ℕ) where
  -- The contexts after ctx_init; `none` is an assertion that fails. The second ASSERT_0 looks at the
  -- code of getcontext again, since makecontext has none.
  unfoldable pub ctx_init_uc : (ctx : ℕ) → Option UProc → Threads → Option Threads
  ctx_init_uc ctx proc t =
      let got = u.getcontext t.thread in
      if got.0 == 0
      then elim proc [
        | none ↦ some (record t { ctxs = update t.ctxs ctx got.1 })
        | some p ↦ some (record t {
          ctxs = update t.ctxs ctx (
              u.makecontext
                (record (got.1) {
                  uc_link = some p.sched_ctx;
                  ss_sp = p.stack_ptr;
                  ss_size = p.stack_size;
                })
                proc_mainfxn p.proc);
        })
      ]
      else none

module _ ⦃u : Ucontext⦄ where
  -- The switch up to the point where the other thread goes on. The ASSERT_0 behind swapcontext sees a
  -- failure before that.
  unfoldable pub ctx_switch_uc : (from to : ℕ) → Threads → Option Threads
  ctx_switch_uc from to t =
      let (ret, thread, saved) = u.swapcontext t.thread (t.ctxs to) in
      if ret == 0 then some (record { thread = thread; ctxs = update t.ctxs from saved }) else none

  -- A call that succeeds has passed its assertion.
  taken : (b : Bool) (x t : Threads) → (if b then some x else none) ≡ some t → (b ≡ true) × (x ≡ t)
  taken true x t e = (refl, ap (λ (o : Option Threads). elim o [ none ↦ x | some y ↦ y ]) e)
  taken false x t e = absurd (cc (e))

  switched :
      (q : ℕ × u.S × UContext u.S) (ctxs : ℕ → UContext u.S) (from : ℕ) (t : Threads)
      → (let (ret, thread, saved) = q in
          if ret == 0
          then some (record { thread = thread; ctxs = update ctxs from saved })
          else none)
        ≡ some t
      → (saved : UContext u.S) × (q ≡ (0, t.thread, saved)) × (t.ctxs from ≡ saved)
  switched (ret, thread, saved) ctxs from t h =
      let (ok, e) =
        taken (ret == 0) (record { thread = thread; ctxs = update ctxs from saved }) t h in
      (
        saved,
        ap (λ (n : ℕ). (n, thread, saved)) ((==_iff ret 0).0 ok)
            ∙ ap (λ (x : Threads). (0, x.thread, saved)) e,
        ap (λ (x : Threads). x.ctxs from) (sym e) ∙ rw (==_refl from),
      )

  -- A thread that has switched away goes on where it was when its context is switched to, whoever
  -- switches, if no one has written to the context in between.
  pub switch-back :
      (from to from' : ℕ) (t t' s s' : Threads)
      → ctx_switch_uc from to t ≡ some t'
      → s.ctxs from ≡ t'.ctxs from
      → ctx_switch_uc from' from s ≡ some s'
      → s'.thread ≡ t.thread
  unfolding ctx_switch_uc
  switch-back from to from' t t' s s' away kept back =
      let (saved, went, holds) =
        switched (u.swapcontext t.thread (t.ctxs to)) t.ctxs from t' away in
      let (saved', came, _) =
        switched (u.swapcontext s.thread (s.ctxs from)) s.ctxs from' s' back in
      u.swap_back t.thread t'.thread s.thread s'.thread (t.ctxs to) saved saved' went
        (ap (u.swapcontext s.thread) (sym (kept ∙ holds)) ∙ came)

  -- The first switch to a context that ctx_init has made of a PROC enters proc_mainfxn with the PROC as
  -- argument, on its stack, and with the scheduler's context to go to behind it.
  pub first-Enters :
      (proc_mainfxn c from : ℕ) (p : UProc) (t t' t'' : Threads)
      → ctx_init_uc proc_mainfxn c (some p) t ≡ some t'
      → ctx_switch_uc from c t' ≡ some t''
      → (x : UContext u.S) × (x.uc_link ≡ some p.sched_ctx)
        × (x.ss_sp ≡ p.stack_ptr)
        × (x.ss_size ≡ p.stack_size)
        × u.Enters t''.thread proc_mainfxn p.proc x
  unfolding ctx_init_uc ctx_switch_uc
  first-Enters proc_mainfxn c from p t t' t'' made switch =
      let got = u.getcontext t.thread in
      let x : UContext u.S = record (got.1) {
        uc_link = some p.sched_ctx;
        ss_sp = p.stack_ptr;
        ss_size = p.stack_size;
      } in
      let init : Threads = record t {
        ctxs = update t.ctxs c (u.makecontext x proc_mainfxn p.proc);
      } in
      let (_, e) = taken (got.0 == 0) init t' made in
      let at : t'.ctxs c ≡ u.makecontext x proc_mainfxn p.proc =
        ap (λ (y : Threads). y.ctxs c) (sym e) ∙ rw (==_refl c) in
      let (saved, went, _) =
        switched (u.swapcontext t'.thread (t'.ctxs c)) t'.ctxs from t'' switch in
      (
        x,
        refl,
        refl,
        refl,
        u.swap_made t'.thread t''.thread x saved proc_mainfxn p.proc
            (ap (u.swapcontext t'.thread) (sym at) ∙ went),
      )
