-- ===== src/Proc/Args.antt =====
-- _proc_copyargs and proc_setargs of proc.c, and proxc_argn of proxc.c. The arguments before the
-- terminator PROXC_NULL are a list. They are gathered in an array of 32 and copied whenever it is
-- full. `realloc_ok n` tells whether realloc gives an array of n pointers, `errno` is what it sets.
pub mod Copied
use libproxc.Base.{
  ℕ, ◌+◌, Bool, true, false, Option, none, some, List, [], ◌∷◌, ◌++◌, ltb, ◌==◌, if◌then◌else◌,
  length, get_elem?,
}
use libproxc.Store.{assert_0, M, pure, fail, corrupt, ◌>>=◌, ◌>>◌, load_proc, put_proc}
use libproxc.Scheduler.Queues.{proc_self}

-- ARGS_N
abbrev pub args_n : ℕ
args_n = 32

module _ (realloc_ok : ℕ → Bool) (errno : ℕ) where
  unfoldable pub proc_copyargs : (p : ℕ) (buf : List ℕ) → M ℕ
  proc_copyargs p buf = do
    proc ← load_proc p
    if realloc_ok (length proc.args + length buf)
        then (do put_proc p (some (record proc { args = proc.args ++ buf })); pure 0)
        else do put_proc p none; pure errno

  -- The loop, with the entries of tmp_args so far, and the copy of the rest. A store behind the end
  -- of the array is a fault.
  unfoldable pub setargs_loop : (p : ℕ) (tmp_args xargs : List ℕ) → M (Unit {0})
  setargs_loop p tmp_args [] =
      if ltb 0 (length tmp_args) then (do ret ← proc_copyargs p tmp_args; assert_0 ret) else pure tt
  setargs_loop p tmp_args (x ∷ xargs) = elim (ltb (length tmp_args) args_n) [
    | false ↦ fail corrupt
    | true ↦ elim (length (tmp_args ++ x ∷ []) == args_n) [
      | true ↦ do ret ← proc_copyargs p (tmp_args ++ x ∷ []); assert_0 ret; setargs_loop p [] xargs
      | false ↦ setargs_loop p (tmp_args ++ x ∷ []) xargs
    ]
  ]

  unfoldable pub proc_setargs : (p : ℕ) (xargs : List ℕ) → M ℕ
  unfolding setargs_loop proc_copyargs
  proc_setargs p xargs = do setargs_loop p [] xargs; pure 0

-- args.ptr[n]; a read behind the end of the array is a fault.
unfoldable pub args_at : List ℕ → ℕ → M ℕ
args_at args n = elim (get_elem? args n) [ none ↦ fail corrupt | some x ↦ pure x ]

-- NULL if the index is out of range.
unfoldable pub proxc_argn : ℕ → M (Option ℕ)
unfolding proc_self args_at
proxc_argn n = do
  self ← proc_self
  proc ← load_proc self
  if ltb n (length proc.args) then (do x ← args_at proc.args n; pure (some x)) else pure none
