-- ===== src/Tests/Programs.antt =====
-- Whole programs from proxc_start to its return.
use libproxc.Base.{◌≡◌, refl, ℕ, zero, suc, true, Option, none, some, List, [], ◌∷◌, update}
use libproxc.Platform.Model.{lists}
use libproxc.Store.{M, Run, ret, fault, yielded, pure, ◌>>=◌, ◌>>◌, get, put_bytes, State, Fault}
use libproxc.Scheduler.Loop.{proxc_start, Tick}
use libproxc.Platform.Links.{tailq_insert_tail, tailq_remove}
use libproxc.Scheduler.Queues.{
  scheduler_addready, scheduler_remready, new_scheduler, proc_self, proc_yield,
}
use libproxc.Scheduler.Loop.{
  scheduler_running, next_ready, after_switch, finish_turn, enter, begin_turn, scheduler_run,
  scheduler_free,
}
use libproxc.Proc.Life.{proc_mainfxn, proc_create, proc_free}
use libproxc.Context.{ctx_madvise, page_floor, gives_back}
use libproxc.Chan.Ops.{
  chan_create, chan_free, write_alt, first_end, copydata, remove_end, wait_end, chan_write,
  chan_read,
}
use libproxc.Csp.Build.{csp_create, csp_free, csp_insertchilds, csp_runbuild, runbuild_as, for_each}
use libproxc.Csp.Finish.{
  next_of, cleanup_childs, cleanup_as, csp_cleanupbuild, parse_as, build_done, csp_parsebuild,
}
use libproxc.Proc.Args.{proc_copyargs, setargs_loop, proc_setargs}
use libproxc.Scheduler.Wakeup.{scheduler_wakeup, wakeup_procs, wakeup_guards}
use libproxc.Chan.Copy.{load_word, store_word, chan_copydata}
use libproxc.Proxc.Choice.{proxc_chread, proxc_chwrite, proxc_chopen}
use libproxc.Proxc.Trees.{proxc_proc, proxc_par, proxc_run}
use libproxc.Tests.States.{no_state}

abbrev ticks : ℕ → List Tick
ticks zero = []
ticks (suc n) = record { now_us = 1; sp = 100000; madvise_ok = true } ∷ ticks n

data Outcome : Type 0 where
  ended : State → Outcome
  failed : Fault → Outcome
  stopped : Outcome

outcome : Run (Unit {0}) → Outcome
outcome (ret _ s) = ended s
outcome (fault e) = failed e
outcome (yielded _ _) = stopped

abbrev store_byte : ℕ → ℕ → M (Unit {0})
store_byte a b = do s ← get; put_bytes (update s.bytes a b)

-- main: a reader and a writer in parallel, over the channel at 50.
main_fxn : M (Unit {0})
unfolding proxc_chopen proxc_proc proxc_par proxc_run
main_fxn = do
  c ← proxc_chopen (some 50) 1
  r ← proxc_proc (some 2) (some 1000) (some 60) (λ _. true) 0 8 1 []
  w ← proxc_proc (some 3) (some 2000) (some 61) (λ _. true) 0 8 2 []
  tree ← proxc_par (some 62) (r ∷ w ∷ [])
  proxc_run 8 62
  pure tt

program : ℕ → M (Unit {0})
unfolding main_fxn proxc_chread proxc_chwrite
program zero = main_fxn
program (suc zero) = do proxc_chread 50 700 1; pure tt
program (suc (suc n)) = do store_byte 800 77; proxc_chwrite 50 800 1; pure tt

byte_of : Outcome → Option ℕ
byte_of (ended s) = some (s.bytes 700)
byte_of _ = none

read_byte : Option ℕ
unfolding proxc_start program load_word store_word outcome byte_of
read_byte = byte_of (outcome (proxc_start program 8 (ticks 9) 4096 (some 1) (some 0) 0 0 no_state))

-- The reader has read the byte that the writer wrote, and the program has ended.
read_byte_77 : read_byte ≡ some 77
unfolding read_byte program main_fxn lists proxc_start outcome byte_of tailq_insert_tail
    tailq_remove scheduler_addready scheduler_remready new_scheduler proc_self proc_yield
    scheduler_running next_ready after_switch finish_turn enter begin_turn scheduler_run
    scheduler_free proc_mainfxn proc_create proc_free ctx_madvise page_floor gives_back chan_create
    chan_free write_alt first_end copydata remove_end wait_end chan_write chan_read csp_create
    csp_free csp_insertchilds csp_runbuild runbuild_as for_each next_of cleanup_childs cleanup_as
    csp_cleanupbuild parse_as build_done csp_parsebuild proc_copyargs setargs_loop proc_setargs
    scheduler_wakeup wakeup_procs wakeup_guards load_word store_word chan_copydata proxc_chread
    proxc_chwrite proxc_chopen proxc_proc proxc_par proxc_run
read_byte_77 = refl
