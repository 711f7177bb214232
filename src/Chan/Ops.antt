-- ===== src/Chan/Ops.antt =====
-- chan_create, chan_free, chan_write, chan_read, chan_altenable, chan_altdisable and chan_altread of
-- chan.c. `mem` is what malloc returns, NULL being `none`; `dat` is the address of the data.
pub mod Parts
pub mod Open
use libproxc.Base.{ℕ, Bool, true, false, not, Option, none, some, [], head?, ◌==◌, if◌then◌else◌}
use libproxc.Platform.{Platform}
use libproxc.Platform.Links.{tailq_insert_tail, tailq_remove}
use libproxc.Store.{
  assert_eq, panic, ProcState, ChanEndType, M, pure, get, ◌>>=◌, ◌>>◌, deref, load_proc, put_proc,
  load_chan, put_chan, load_end, put_end, load_guard, put_bytes,
}
use libproxc.Alt.Accept.{alt_accept}
use libproxc.Scheduler.Queues.{proc_self, proc_yield, scheduler_addready}
use libproxc.Chan.Copy.{chan_copydata}

unfoldable pub chan_create : (mem : Option ℕ) (data_size : ℕ) → M (Option ℕ)
chan_create none data_size = pure none
chan_create (some c) data_size = do
  put_chan c (some (record { data_size = data_size; end_q = []; alt_q = [] }))
  pure (some c)

unfoldable pub chan_free : Option ℕ → M (Unit {0})
chan_free none = pure tt
chan_free (some c) = do load_chan c; put_chan c none

abbrev pub is_writer : ChanEndType → Bool
is_writer ChanEndType.writer = true
is_writer _ = false

abbrev pub is_reader : ChanEndType → Bool
is_reader ChanEndType.reader = true
is_reader _ = false

-- The test `first && first->type == …` on the first ChanEnd of end_q: its address, if it passes.
unfoldable pub first_end : (ChanEndType → Bool) → ℕ → M (Option ℕ)
first_end test c = do
  chan ← load_chan c
  elim (head? chan.end_q) [
    | none ↦ pure none
    | some e ↦ do first ← load_end e; pure (if test first.type then some e else none)
  ]

module _ ⦃v : Platform⦄ where
  unfoldable pub copydata : (dst src size : ℕ) → M (Unit {0})
  copydata dst src size = do s ← get; put_bytes (chan_copydata s.bytes dst src size)

  unfoldable pub remove_end : (c e : ℕ) → M (Unit {0})
  remove_end c e = do
    chan ← load_chan c
    q ← tailq_remove chan.end_q e
    put_chan c (some (record chan { end_q = q }))

  -- The first part of chan_write: an alternation on the channel takes the data, if the first one
  -- accepts. The guard stays in alt_q.
  unfoldable pub write_alt : (c dat size : ℕ) → M Bool
  write_alt c dat size = do
    chan ← load_chan c
    elim (head? chan.alt_q) [
      | none ↦ pure false
      | some g ↦ do
        guard ← load_guard g
        first ← deref guard.ch_end.guard
        accepted ← alt_accept first
        if not accepted then pure false else do
          copydata guard.ch_end.data_ptr dat size
          alter ← deref guard.ch_end.proc
          scheduler_addready alter
          pure true
    ]

  -- The last part of chan_write and chan_read: the caller waits in end_q, in a ChanEnd on its stack,
  -- until the other end has copied the data and made it ready.
  unfoldable pub wait_end : ChanEndType → (c dat : ℕ) → M ℕ
  wait_end type c dat = do
    self ← proc_self
    put_end self (
        some
          (record { type = type; data_ptr = dat; chan = some c; proc = some self; guard = none }))
    chan ← load_chan c
    q ← tailq_insert_tail chan.end_q self
    put_chan c (some (record chan { end_q = q }))
    proc ← load_proc self
    put_proc self (some (record proc { state = ProcState.chanwait }))
    proc_yield
    put_end self none
    pure 1

  unfoldable pub chan_write : (c dat size : ℕ) → M ℕ
  chan_write c dat size = do
    chan ← load_chan c
    assert_eq size chan.data_size
    done ← write_alt c dat size
    if done then pure 1 else do
      reader ← first_end is_reader c
      elim reader [
        | some e ↦ do
          remove_end c e
          first ← load_end e
          copydata first.data_ptr dat size
          p ← deref first.proc
          scheduler_addready p
          pure 1
        | none ↦ wait_end ChanEndType.writer c dat
      ]

  unfoldable pub chan_read : (c dat size : ℕ) → M ℕ
  chan_read c dat size = do
    chan ← load_chan c
    assert_eq size chan.data_size
    writer ← first_end is_writer c
    elim writer [
      | some e ↦ do
        remove_end c e
        first ← load_end e
        copydata dat first.data_ptr size
        p ← deref first.proc
        scheduler_addready p
        pure 1
      | none ↦ wait_end ChanEndType.reader c dat
    ]

  unfoldable pub chan_altenable : (c g : ℕ) → M Bool
  chan_altenable c g = do
    load_chan c
    load_guard g
    writer ← first_end is_writer c
    elim writer [
      | some _ ↦ pure true
      | none ↦ do
        chan ← load_chan c
        q ← tailq_insert_tail chan.alt_q g
        put_chan c (some (record chan { alt_q = q }))
        pure false
    ]

  unfoldable pub chan_altdisable : (c g : ℕ) → M (Unit {0})
  chan_altdisable c g = do
    chan ← load_chan c
    guard ← load_guard g
    gc ← deref guard.chan
    assert_eq c gc
    q ← tailq_remove chan.alt_q g
    put_chan c (some (record chan { alt_q = q }))

  unfoldable pub chan_altread : (c g size : ℕ) → M (Unit {0})
  chan_altread c g size = do
    chan ← load_chan c
    guard ← load_guard g
    assert_eq size chan.data_size
    e ← deref (head? chan.end_q)
    first ← load_end e
    if not (is_writer first.type) then panic else do
      remove_end c e
      copydata guard.data_ptr first.data_ptr chan.data_size
      p ← deref first.proc
      scheduler_addready p
