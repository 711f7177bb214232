-- ===== src/Proxc/Choice.antt =====
-- proxc_guardchan, proxc_guardtime, proxc_guardskip, proxc_alt and the channel calls of proxc.c.
use libproxc.Base.{ℕ, ◌+◌, Bool, ◌&&◌, Option, none, some, List, [], ◌∷◌, ltb, if◌then◌else◌, ℤ}
use libproxc.Platform.{Platform}
use libproxc.Store.{guard_skip, guard_time, guard_chan, M, pure, ◌>>=◌, ◌>>◌, put_alt}
use libproxc.Scheduler.Sleep.{u64}
use libproxc.Alt.Guards.{alt_guardcreate, alt_init, alt_addguard, alt_cleanup}
use libproxc.Alt.Select.{alt_select}
use libproxc.Chan.Ops.{
  chan_create, chan_free, chan_write, chan_read, write_alt, first_end, remove_end, wait_end,
  copydata, chan_altenable, chan_altdisable, chan_altread,
}
use libproxc.Chan.Copy.{chan_copydata}
use libproxc.Alt.Accept.{alt_accept}

unfoldable pub proxc_guardchan :
    (mem : Option ℕ) (cond : Bool) (chan : Option ℕ) (out size : ℕ) → M (Option ℕ)
unfolding alt_guardcreate
proxc_guardchan mem cond chan out size =
    if cond then alt_guardcreate mem guard_chan 0 chan out size else pure none

-- `now` is what gettimestamp returns.
unfoldable pub proxc_guardtime : (mem : Option ℕ) (cond : Bool) (usec now : ℕ) → M (Option ℕ)
unfolding alt_guardcreate
proxc_guardtime mem cond usec now =
    if cond && ltb 0 usec
    then alt_guardcreate mem guard_time (u64 (usec + now)) none 0 0
    else if cond
    then alt_guardcreate mem guard_skip 0 none 0 0
    else pure none

unfoldable pub proxc_guardskip : (mem : Option ℕ) (cond : Bool) → M (Option ℕ)
unfolding alt_guardcreate
proxc_guardskip mem cond = if cond then alt_guardcreate mem guard_skip 0 none 0 0 else pure none

module _ ⦃v : Platform⦄ where
  unfoldable pub add_guards : (a : ℕ) → List (Option ℕ) → M (Unit {0})
  unfolding alt_addguard
  add_guards a [] = pure tt
  add_guards a (g ∷ gs) = do alt_addguard a g; add_guards a gs

  -- `a` is the address of the Alt on the caller's stack; it is gone when the function returns.
  unfoldable pub proxc_alt : (a : ℕ) (mem : Bool) (rand : ℕ) → List (Option ℕ) → M ℤ
  unfolding alt_init add_guards alt_select alt_cleanup chan_altenable chan_altdisable chan_altread
      first_end remove_end copydata chan_copydata
  proxc_alt a mem rand guards = do
    alt_init a
    add_guards a guards
    key ← alt_select mem rand a
    alt_cleanup (some a)
    put_alt a none
    pure key

  unfoldable pub proxc_chwrite : (c dat size : ℕ) → M ℕ
  unfolding chan_write write_alt first_end remove_end wait_end copydata chan_copydata alt_accept
  proxc_chwrite c dat size = chan_write c dat size

  unfoldable pub proxc_chread : (c dat size : ℕ) → M ℕ
  unfolding chan_read first_end remove_end wait_end copydata chan_copydata
  proxc_chread c dat size = chan_read c dat size

unfoldable pub proxc_chopen : (mem : Option ℕ) (size : ℕ) → M (Option ℕ)
unfolding chan_create
proxc_chopen mem size = chan_create mem size

unfoldable pub proxc_chclose : Option ℕ → M (Unit {0})
unfolding chan_free
proxc_chclose c = chan_free c
