-- ===== src/Scheduler/Create.antt =====
-- scheduler_create and scheduler_self of scheduler.c, where there are several threads: the scheduler of
-- a thread is found by a pthread key. ctx_init of the scheduler's context is in Context.
use libproxc.Base.{
  ℕ, ◌≡◌, refl, ap, ◌∙◌, Bool, true, false, Option, none, some, ◌==◌, if◌then◌else◌, update,
}
use libproxc.Platform.{Platform}
use libproxc.Store.{Scheduler, M}
use libproxc.Scheduler.Queues.{new_scheduler}
use libproxc.Scheduler.Loop.{scheduler_free}

-- The pthread library as far as the code uses it, with one key and one pthread_once_t; a call's code
-- is 0 where it succeeds.
pub record Pthread : Type 1 where
  pub Keys : Type 0
  -- pthread_once: whether it calls the routine now, and its code
  pub once : Keys → Bool × ℕ × Keys
  pub key_create : Keys → ℕ × Keys
  pub setspecific : (thread ptr : ℕ) → Keys → ℕ × Keys
  pub getspecific : (thread : ℕ) → Keys → Option ℕ
  pub get_set :
      (thread ptr : ℕ) (k k' : Keys)
      → setspecific thread ptr k ≡ (0, k')
      → getspecific thread k' ≡ some ptr
  pub get_set_other :
      (thread other ptr : ℕ) (k k' : Keys)
      → setspecific thread ptr k ≡ (0, k')
      → (thread == other) ≡ false
      → getspecific other k' ≡ getspecific other k
  pub get_once :
      (thread : ℕ) (k k' : Keys)
      → once k ≡ (false, 0, k')
      → getspecific thread k' ≡ getspecific thread k
  pub get_created :
      (thread : ℕ) (k k' : Keys) → key_create k ≡ (0, k') → getspecific thread k' ≡ none

module _ ⦃t : Pthread⦄ where
  -- What the threads share: the keys, and the schedulers in memory.
  pub record Process : Type 0 where
    pub keys : t.Keys
    pub scheds : ℕ → Option Scheduler

  -- ASSERT_0, with `none` for an assertion that fails.
  abbrev checked : {A : Type 0} → ℕ → Option A → Option A
  checked ret next = if ret == 0 then next else none

  unfoldable pub scheduler_key_create : t.Keys → Option t.Keys
  scheduler_key_create k = let (ret, k') = t.key_create k in checked ret (some k')

  -- What pthread_once does, by its result.
  unfoldable key_once_as : (calls : Bool) (ret : ℕ) → t.Keys → Option t.Keys
  unfolding scheduler_key_create
  key_once_as false ret k = checked ret (some k)
  key_once_as true ret k = elim (scheduler_key_create k) [
    | none ↦ none
    | some k' ↦ checked ret (some k')
  ]

  -- pthread_once with the routine above
  unfoldable pub key_once : t.Keys → Option t.Keys
  unfolding key_once_as
  key_once k = let (calls, ret, k') = t.once k in key_once_as calls ret k'

  -- The code, the scheduler where it is set, and the process. `mem` is what malloc returns, `errno` what
  -- it sets.
  unfoldable pub scheduler_create :
      (thread : ℕ) (mem : Option ℕ) (errno page_size : ℕ)
      → Process
      → Option (ℕ × Option ℕ × Process)
  unfolding key_once
  scheduler_create thread none errno page_size s = some (errno, none, s)
  scheduler_create thread (some a) errno page_size s = elim (key_once s.keys) [
    | none ↦ none
    | some k ↦
        let (ret, k') = t.setspecific thread a k in
        checked ret (
          some (
            0,
            some a,
            record { keys = k'; scheds = update s.scheds a (some (new_scheduler page_size)) },
          ))
  ]

  -- `none` is an assertion that fails.
  unfoldable pub scheduler_self : (thread : ℕ) → Process → Option ℕ
  scheduler_self thread s = t.getspecific thread s.keys

  key_once-made : (k : t.Keys) {k' : t.Keys} → t.once k ≡ (false, 0, k') → key_once k ≡ some k'
  unfolding key_once key_once_as
  key_once-made k e =
      ap (λ (q : Bool × ℕ × t.Keys). let (calls, ret, x) = q in key_once_as calls ret x) e

  key_once-first :
      (k : t.Keys) {k' k'' : t.Keys}
      → t.once k ≡ (true, 0, k')
      → t.key_create k' ≡ (0, k'')
      → key_once k ≡ some k''
  unfolding key_once key_once_as scheduler_key_create
  key_once-first k e e' =
      ap (λ (q : Bool × ℕ × t.Keys). let (calls, ret, x) = q in key_once_as calls ret x) e
      ∙ ap
          (λ (q : ℕ × t.Keys).
            let (ret, x) = q in
            elim (checked ret (some x)) as (λ _. Option t.Keys) [ none ↦ none | some y ↦ some y ])
          e'

  create-made :
      (thread a errno page_size : ℕ) (s : Process) {k k' : t.Keys}
      → key_once s.keys ≡ some k
      → t.setspecific thread a k ≡ (0, k')
      → scheduler_create thread (some a) errno page_size s
        ≡ some (
          0,
          some a,
          record { keys = k'; scheds = update s.scheds a (some (new_scheduler page_size)) },
        )
  unfolding scheduler_create
  create-made thread a errno page_size s made set = rw (made, set, scheduler_create)

  -- The key has been made, and pthread_setspecific succeeds. Then scheduler_create by a thread, with the
  -- memory at `a`, returns 0 and sets the scheduler: this thread finds it, another thread finds what it
  -- found before, and no other scheduler has changed.
  pub create_self :
      (thread other a errno page_size : ℕ) (s : Process) {k k' : t.Keys}
      → t.once s.keys ≡ (false, 0, k)
      → t.setspecific thread a k ≡ (0, k')
      → (thread == other) ≡ false
      → (s' : Process) × (scheduler_create thread (some a) errno page_size s ≡ some (0, some a, s'))
        × (scheduler_self thread s' ≡ some a)
        × (scheduler_self other s' ≡ scheduler_self other s)
        × (s'.scheds ≡ update s.scheds a (some (new_scheduler page_size)))
  unfolding scheduler_self
  create_self thread other a errno page_size s {k} {k'} made set ne = (
    record { keys = k'; scheds = update s.scheds a (some (new_scheduler page_size)) },
    create-made thread a errno page_size s (key_once-made s.keys made) set,
    t.get_set thread a k k' set,
    t.get_set_other thread other a k k' set ne ∙ t.get_once other s.keys k made,
    refl,
  )

  -- The first scheduler_create makes the key too: the other threads find no scheduler.
  pub create-first :
      (thread other a errno page_size : ℕ) (s : Process) {k k' k'' : t.Keys}
      → t.once s.keys ≡ (true, 0, k)
      → t.key_create k ≡ (0, k')
      → t.setspecific thread a k' ≡ (0, k'')
      → (thread == other) ≡ false
      → (s' : Process) × (scheduler_create thread (some a) errno page_size s ≡ some (0, some a, s'))
        × (scheduler_self thread s' ≡ some a)
        × (scheduler_self other s' ≡ none)
  unfolding scheduler_self
  create-first thread other a errno page_size s {k} {k'} {k''} made key set ne = (
    record { keys = k''; scheds = update s.scheds a (some (new_scheduler page_size)) },
    create-made thread a errno page_size s (key_once-first s.keys made key) set,
    t.get_set thread a k' k'' set,
    t.get_set_other thread other a k' k'' set ne ∙ t.get_created other k k' key,
  )

module _ ⦃v : Platform⦄ where
  -- The key's destructor, which releases the scheduler of a thread that ends.
  unfoldable pub scheduler_key_free : (fuel rounds : ℕ) → M (Unit {0})
  unfolding scheduler_free
  scheduler_key_free fuel rounds = scheduler_free fuel rounds
