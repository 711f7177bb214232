-- ===== src/Proxc/Macros.antt =====
-- The macros of proxc.h. The functions behind PROC, PAR, SEQ and ALT read their arguments up to
-- PROXC_NULL, which the macros put behind them; `size` stands for sizeof(type).
use libproxc.Base.{
  ℕ, ◌-◌, ◌*◌, ◌^◌, Bool, true, false, Option, none, some, List, [], ◌∷◌, ◌++◌, ◌==◌, ℤ,
}
use libproxc.Platform.{Platform}
use libproxc.Store.{M}
use libproxc.Scheduler.Sleep.{u64}
use libproxc.Proc.Args.{proxc_argn}
use libproxc.Proxc.Trees.{proxc_proc, proxc_par, proxc_seq, proxc_go, proxc_run}
use libproxc.Proxc.Control.{proxc_yield, proxc_sleep}
use libproxc.Proxc.Choice.{
  proxc_guardchan, proxc_guardtime, proxc_guardskip, proxc_alt, proxc_chopen, proxc_chclose,
  proxc_chwrite, proxc_chread,
}

-- PROXC_NULL, as the number that the pointer is.
abbrev pub proxc_null : ℕ
proxc_null = 2 ^ 64 - 1

-- A pointer is PROXC_NULL.
abbrev pub ends_args : Option ℕ → Bool
ends_args none = false
ends_args (some a) = a == proxc_null

-- What the loops on va_arg read: the arguments before PROXC_NULL.
abbrev pub va_args {ℓ} : {A : Type ℓ} → (A → Bool) → List A → List A
va_args ends [] = []
va_args ends (x ∷ xs) = elim (ends x) [ true ↦ [] | false ↦ x ∷ va_args ends xs ]

abbrev pub usec : ℕ → ℕ
usec n = u64 n

abbrev pub msec : ℕ → ℕ
msec n = usec (u64 (1000 * u64 n))

abbrev pub sec : ℕ → ℕ
sec n = msec (u64 (1000 * u64 n))

unfoldable pub argn : (index : ℕ) → M (Option ℕ)
unfolding proxc_argn
argn index = proxc_argn index

unfoldable pub yield : M (Unit {0})
unfolding proxc_yield
yield = proxc_yield

unfoldable pub chan_guard :
    (mem : Option ℕ) (cond : Bool) (ch : Option ℕ) (out size : ℕ) → M (Option ℕ)
unfolding proxc_guardchan
chan_guard mem cond ch out size = proxc_guardchan mem cond ch out size

unfoldable pub time_guard : (mem : Option ℕ) (cond : Bool) (usec now : ℕ) → M (Option ℕ)
unfolding proxc_guardtime
time_guard mem cond usec now = proxc_guardtime mem cond usec now

unfoldable pub skip_guard : (mem : Option ℕ) (cond : Bool) → M (Option ℕ)
unfolding proxc_guardskip
skip_guard mem cond = proxc_guardskip mem cond

unfoldable pub chopen : (mem : Option ℕ) (size : ℕ) → M (Option ℕ)
unfolding proxc_chopen
chopen mem size = proxc_chopen mem size

unfoldable pub chclose : Option ℕ → M (Unit {0})
unfolding proxc_chclose
chclose chan = proxc_chclose chan

module _ ⦃v : Platform⦄ where
  unfoldable pub sleep : (usec now : ℕ) → M (Unit {0})
  unfolding proxc_sleep
  sleep usec now = proxc_sleep (u64 usec) now

  unfoldable pub proc_args :
      (mem stack mem_build : Option ℕ) (realloc_ok : ℕ → Bool) (errno fuel : ℕ)
      → (fxn : ℕ) (args : List ℕ) → M (Option ℕ)
  unfolding proxc_proc
  proc_args mem stack mem_build realloc_ok errno fuel fxn args =
      proxc_proc mem stack mem_build realloc_ok errno fuel fxn
        (va_args (λ a. a == proxc_null) (args ++ proxc_null ∷ []))

  unfoldable pub par_args : (mem : Option ℕ) → List (Option ℕ) → M (Option ℕ)
  unfolding proxc_par
  par_args mem childs = proxc_par mem (va_args ends_args (childs ++ some proxc_null ∷ []))

  unfoldable pub seq_args : (mem : Option ℕ) → List (Option ℕ) → M (Option ℕ)
  unfolding proxc_seq
  seq_args mem childs = proxc_seq mem (va_args ends_args (childs ++ some proxc_null ∷ []))

  unfoldable pub go : (fuel build : ℕ) → M ℕ
  unfolding proxc_go
  go fuel build = proxc_go fuel build

  unfoldable pub run : (fuel build : ℕ) → M ℕ
  unfolding proxc_run
  run fuel build = proxc_run fuel build

  unfoldable pub alt_args : (a : ℕ) (mem : Bool) (rand : ℕ) → List (Option ℕ) → M ℤ
  unfolding proxc_alt
  alt_args a mem rand guards =
      proxc_alt a mem rand (va_args ends_args (guards ++ some proxc_null ∷ []))

  unfoldable pub chwrite : (chan dat size : ℕ) → M ℕ
  unfolding proxc_chwrite
  chwrite chan dat size = proxc_chwrite chan dat size

  unfoldable pub chread : (chan dat size : ℕ) → M ℕ
  unfolding proxc_chread
  chread chan dat size = proxc_chread chan dat size
