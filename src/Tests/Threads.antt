-- ===== src/Tests/Threads.antt =====
-- Instances of what the code relies on of pthread and of ucontext, and runs on them.
use libproxc.Base.{
  ℕ, ◌≡◌, refl, sym, ap, ◌∙◌, Bool, true, false, Option, none, some, ==_refl, update,
}
use libproxc.Scheduler.Create.{Pthread, Process, scheduler_create, scheduler_self}
use libproxc.Context.Ucontext.{UContext, Ucontext, Threads, ctx_init_uc, ctx_switch_uc}

-- Whether the routine has been called, and each thread's pointer.
record Slots : Type 0 where
  pub called : Bool
  pub slots : ℕ → Option ℕ

abbrev once_slots : Bool → Slots → Bool × ℕ × Slots
once_slots true k = (false, 0, k)
once_slots false k = (true, 0, record k { called = true })

once_same :
    (b : Bool) (thread : ℕ) (k k' : Slots)
    → once_slots b k ≡ (false, 0, k')
    → k'.slots thread ≡ k.slots thread
once_same true thread k k' e =
    ap (λ (q : Bool × ℕ × Slots). let (_, _, x) = q in x.slots thread) (sym e)
once_same false thread k k' e =
    ap (λ (q : Bool × ℕ × Slots). let (_, _, x) = q in x.slots thread) (sym e)

abbrev pthread : Pthread
pthread = record {
  Keys = Slots;
  once = λ k. once_slots k.called k;
  key_create = λ k. (0, record k { slots = λ _. none });
  setspecific = λ t p k. (0, record k { slots = update k.slots t (some p) });
  getspecific = λ t k. k.slots t;
  get_set =
      λ t p k k' e. ap (λ (q : ℕ × Slots). let (_, x) = q in x.slots t) (sym e) ∙ rw (==_refl t);
  get_set_other =
      λ t o p k k' e ne. ap (λ (q : ℕ × Slots). let (_, x) = q in x.slots o) (sym e) ∙ rw (ne);
  get_once = λ t k k' e. once_same k.called t k k' e;
  get_created = λ t k k' e. ap (λ (q : ℕ × Slots). let (_, x) = q in x.slots t) (sym e);
}

abbrev no_process : Process ⦃t = pthread⦄
no_process = record { keys = record { called = false; slots = λ _. none }; scheds = λ _. none }

abbrev after_create : Option (ℕ × Option ℕ × Process ⦃t = pthread⦄) → Process ⦃t = pthread⦄
after_create none = no_process
after_create (some q) = let (_, _, s) = q in s

-- Thread 1 makes the scheduler at 100, then thread 2 that at 200.
abbrev two_threads : Process ⦃t = pthread⦄
two_threads = after_create (
    scheduler_create ⦃t = pthread⦄ 2 (some 200) 0 4096
      (after_create (scheduler_create ⦃t = pthread⦄ 1 (some 100) 0 4096 no_process)))

each_finds_its_own :
    (scheduler_self ⦃t = pthread⦄ 1 two_threads ≡ some 100)
    × (scheduler_self ⦃t = pthread⦄ 2 two_threads ≡ some 200)
unfolding scheduler_create scheduler_self
each_finds_its_own = (refl, refl)

-- Where a thread is: inside a function, or about to enter one on a stack, with a context behind it.
data Place : Type 0 where
  inside : (point : ℕ) → Place
  entering : (fxn arg ss_sp ss_size : ℕ) → Option ℕ → Place

abbrev saved_of : Place → UContext Place
saved_of t = record { uc_link = none; ss_sp = 0; ss_size = 0; saved = t }

abbrev ucontext : Ucontext
ucontext = record {
  S = Place;
  getcontext = λ t. (0, saved_of t);
  makecontext = λ c fxn arg. record c { saved = entering fxn arg c.ss_sp c.ss_size c.uc_link };
  swapcontext = λ t c. (0, c.saved, saved_of t);
  Enters = λ t fxn arg c. t ≡ entering fxn arg c.ss_sp c.ss_size c.uc_link;
  swap_made = λ t t' c saved fxn arg e.
      ap (λ (q : ℕ × Place × UContext Place). let (_, x, _) = q in x) (sym e);
  swap_back = λ t t' o o' c saved saved' e e'.
      ap (λ (q : ℕ × Place × UContext Place). let (_, x, _) = q in x) (sym e')
      ∙ ap (λ (q : ℕ × Place × UContext Place). let (_, _, y) = q in y.saved) (sym e);
}

abbrev on_main : Threads ⦃u = ucontext⦄
on_main = record { thread = inside 5; ctxs = λ _. saved_of (inside 0) }

abbrev or_main : Option (Threads ⦃u = ucontext⦄) → Threads ⦃u = ucontext⦄
or_main none = on_main
or_main (some t) = t

-- The context at 8 of the PROC at 3 is made, and switched to from that at 9.
abbrev entered : Threads ⦃u = ucontext⦄
entered = or_main (
    ctx_switch_uc ⦃u = ucontext⦄ 9 8 (
      or_main (
        ctx_init_uc ⦃u = ucontext⦄ 77 8
          (some (record { proc = 3; sched_ctx = 9; stack_ptr = 4096; stack_size = 8192 }))
          on_main)))

-- The PROC's function is entered, and the thread comes back when it switches to 9.
enters_and_returns :
    (entered.thread ≡ entering 77 3 4096 8192 (some 9))
    × ((or_main (ctx_switch_uc ⦃u = ucontext⦄ 8 9 entered)).thread ≡ inside 5)
unfolding ctx_init_uc ctx_switch_uc
enters_and_returns = (refl, refl)
