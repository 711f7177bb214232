-- ===== src/Proc/Args/Copied.antt =====
-- The arguments of a PROC are those that were given, in their order, whatever their number.
use libproxc.Base.{
  ℕ, zero, suc, ◌+◌, ◌<◌, ◌≡◌, refl, sym, ◌∙◌, ap, inl, inr, Bool, true, false, some, none, List,
  [], ◌∷◌, ◌++◌, append_assoc, append-nil, arith, ltb, ◌==◌, if◌then◌else◌, length, length-append,
  update, ==_refl, Bool-cases, get_elem?,
}
use mathlib.Core.Path.{subst}
use libproxc.Store.{State, Proc, ret, pure, ◌>>=◌}
use libproxc.Proc.Args.{args_n, proc_copyargs, setargs_loop, proc_setargs, args_at, proxc_argn}
use libproxc.Scheduler.Queues.{proc_self}

-- `s'` is `s` with the PROC at `p` being `proc`.
pub record Holds (s s' : State) (p : ℕ) (proc : Proc) : Type 0 where
  pub at : s'.procs p ≡ some proc
  pub same : (q : ℕ) → (p == q) ≡ false → s'.procs q ≡ s.procs q
  pub rest : s' ≡ record s { procs = s'.procs }

abbrev pub with_args : Proc → List ℕ → Proc
with_args proc xs = record proc { args = proc.args ++ xs }

abbrev copied : State → ℕ → Proc → List ℕ → State
copied s p proc xs = record s { procs = update s.procs p (some (with_args proc xs)) }

copied-Holds :
    (s : State) (p : ℕ) (proc : Proc) (xs : List ℕ)
    → Holds s (copied s p proc xs) p (with_args proc xs)
copied-Holds s p proc xs = record { at = rw (==_refl p); same = λ q ne. rw ne; rest = refl }

Holds-trans : {s t u : State} {p : ℕ} {a b : Proc} → Holds s t p a → Holds t u p b → Holds s u p b
Holds-trans {u} h k = record {
  at = k.at;
  same = λ q ne. k.same q ne ∙ h.same q ne;
  rest = k.rest ∙ ap (λ (x : State). record x { procs = u.procs }) h.rest;
}

with_args-snoc :
    (proc : Proc) (tmp : List ℕ) (x : ℕ) (xs : List ℕ)
    → with_args (with_args proc (tmp ++ x ∷ [])) xs ≡ with_args proc (tmp ++ x ∷ xs)
with_args-snoc proc tmp x xs = ap (λ (l : List ℕ). record proc { args = l }) (simp (append_assoc))

-- A read within the bounds does not fault, and none is made outside them.
args_at-in_range :
    (xs : List ℕ) (n : ℕ) (s : State)
    → (if ltb n (length xs) then (do x ← args_at xs n; pure (some x)) else pure none) s
      ≡ ret (get_elem? xs n) s
unfolding args_at
args_at-in_range [] n s = ground arith
args_at-in_range (x ∷ xs) zero s = ground arith
args_at-in_range (x ∷ xs) (suc n) s = ground (arith, args_at-in_range xs n s)

module _ (realloc_ok : ℕ → Bool) (errno : ℕ) (always : (n : ℕ) → realloc_ok n ≡ true) where
  copyargs-copied :
      (s : State) (p : ℕ) {proc : Proc} (xs : List ℕ)
      → s.procs p ≡ some proc
      → proc_copyargs realloc_ok errno p xs s ≡ ret 0 (copied s p proc xs)
  unfolding proc_copyargs
  copyargs-copied s p {proc} xs e = rw (e, always (length proc.args + length xs))

  loop_full :
      (s : State) (p : ℕ) {proc : Proc} (tmp : List ℕ) (x : ℕ) (xs : List ℕ)
      → s.procs p ≡ some proc
      → length tmp < args_n
      → (length (tmp ++ x ∷ []) == args_n) ≡ true
      → setargs_loop realloc_ok errno p tmp (x ∷ xs) s
        ≡ setargs_loop realloc_ok errno p [] xs (copied s p proc (tmp ++ x ∷ []))
  unfolding setargs_loop
  loop_full s p tmp x xs e small full = ground (arith, copyargs-copied s p (tmp ++ x ∷ []) e)

  loop_room :
      (s : State) (p : ℕ) (tmp : List ℕ) (x : ℕ) (xs : List ℕ)
      → length tmp < args_n
      → (length (tmp ++ x ∷ []) == args_n) ≡ false
      → setargs_loop realloc_ok errno p tmp (x ∷ xs) s
        ≡ setargs_loop realloc_ok errno p (tmp ++ x ∷ []) xs s
  unfolding setargs_loop
  loop_room s p tmp x xs small room = ground arith

  setargs_loop-Holds :
      (s : State) (p : ℕ) {proc : Proc} (tmp xs : List ℕ)
      → s.procs p ≡ some proc
      → length tmp < args_n
      → (s' : State) × (setargs_loop realloc_ok errno p tmp xs s ≡ ret tt s')
        × Holds s s' p (with_args proc (tmp ++ xs))
  unfolding setargs_loop
  setargs_loop-Holds s p {proc} [] [] e small = (
    s,
    refl,
    record {
      at = e ∙ ap (λ (l : List ℕ). some (record proc { args = l })) (sym (append-nil proc.args));
      same = λ q ne. refl;
      rest = refl;
    },
  )
  setargs_loop-Holds s p {proc} (t ∷ tmp) [] e small = (
    copied s p proc (t ∷ tmp),
    ground (arith, copyargs-copied s p (t ∷ tmp) e),
    subst (λ l. Holds s (copied s p proc (t ∷ tmp)) p (with_args proc l))
        (sym (append-nil (t ∷ tmp))) (copied-Holds s p proc (t ∷ tmp)),
  )
  setargs_loop-Holds s p {proc} tmp (x ∷ xs) e small =
      elim (Bool-cases (length (tmp ++ x ∷ []) == args_n)) [
        | inl full ↦
            let (s', r, h) =
              setargs_loop-Holds (copied s p proc (tmp ++ x ∷ [])) p [] xs (rw (==_refl p))
                (omega arith) in
            (
              s',
              loop_full s p tmp x xs e small full ∙ r,
              subst (Holds s s' p) (with_args-snoc proc tmp x xs)
                  (Holds-trans (copied-Holds s p proc (tmp ++ x ∷ [])) h),
            )
        | inr room ↦
            let (s', r, h) =
              setargs_loop-Holds s p (tmp ++ x ∷ []) xs e
                (ground (arith, length-append tmp (x ∷ []))) in
            (
              s',
              loop_room s p tmp x xs small room ∙ r,
              subst (λ l. Holds s s' p (with_args proc l)) (append_assoc tmp (x ∷ []) xs) h,
            )
      ]

  -- If realloc does not fail, the arguments are put behind those that the PROC has, and nothing else
  -- changes: 32 at a time or not, with no store behind the end of the array of 32.
  pub setargs-Holds :
      (s : State) (p : ℕ) {proc : Proc} (xs : List ℕ)
      → s.procs p ≡ some proc
      → (s' : State) × (proc_setargs realloc_ok errno p xs s ≡ ret 0 s')
        × Holds s s' p (with_args proc xs)
  unfolding proc_setargs
  setargs-Holds s p xs e =
      let (s', r, h) = setargs_loop-Holds s p [] xs e (omega arith) in (s', rw r, h)

-- ARGN: the running PROC gets its n-th argument, and NULL from the number of its arguments on.
pub argn-get_elem? :
    (s : State) (n : ℕ) {self : ℕ} {proc : Proc}
    → s.sched.curr_proc ≡ some self
    → s.procs self ≡ some proc
    → proxc_argn n s ≡ ret (get_elem? proc.args n) s
unfolding proxc_argn proc_self args_at
argn-get_elem? s n {self} {proc} cu at =
    rw (cu, at)
      (args_at-in_range proc.args n (record s { sched = record s.sched { curr_proc = some self } }))
