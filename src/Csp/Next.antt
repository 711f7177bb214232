-- ===== src/Csp/Next.antt =====
-- The end of a part of a SEQ that is not its last: the next part starts.
use libproxc.Base.{ℕ, suc, ◌<◌, ◌^◌, ◌≡◌, ap, ◌∙◌, false, some, arith, ◌==◌, ==_refl, elem, update}
use libproxc.Platform.{Platform}
use libproxc.Store.{State, Proc, BuildType, proc_build, seq_build, Builder, deref, ret}
use libproxc.Scheduler.Queues.Fifo.{readied, addready_lem}
use libproxc.Scheduler.Sleep.{dec64}
use libproxc.Csp.Build.{runbuild_as, csp_runbuild}
use libproxc.Csp.Finish.{next_of, parse_as, csp_parsebuild}
use libproxc.Csp.Resume.{counted, parse-done, parse-proc, done-child}
use libproxc.Csp.Join.{Part, dec64-suc, parse-waits}

module _ ⦃v : Platform⦄ where
  -- The store after the SEQ `b`, with `n` parts left, has gone on to the PROC `p` of the builder `d`.
  abbrev pub moved : State → (b : ℕ) → Builder → (n d p : ℕ) → Proc → State
  moved s b x n d p proc =
      let u : State = readied (counted s b x n) p proc in
      record u {
        builds = update u.builds b (some (record x { num_childs = n; curr_build = some d }));
      }

  run_as-proc :
      (fuel d p : ℕ) (s : State) (type : BuildType) (y : Builder) {proc : Proc}
      → type ≡ proc_build
      → y.proc ≡ some p
      → s.procs p ≡ some proc
      → elem p s.sched.ready_q ≡ false
      → runbuild_as (csp_runbuild fuel) type y s ≡ ret tt (readied s p proc)
  unfolding runbuild_as
  run_as-proc fuel d p s type y e owner pr out = rw (e, owner, addready_lem s pr out)

  run-proc :
      (fuel d p : ℕ) (s : State) {y : Builder} {proc : Proc}
      → s.builds d ≡ some y
      → y.type ≡ proc_build
      → y.proc ≡ some p
      → s.procs p ≡ some proc
      → elem p s.sched.ready_q ≡ false
      → csp_runbuild (suc fuel) d s ≡ ret tt (readied s p proc)
  unfolding csp_runbuild
  run-proc fuel d p s {y} at typed owner pr out =
      let loads : csp_runbuild (suc fuel) d s ≡ runbuild_as (csp_runbuild fuel) y.type y s =
        rw at in
      loads ∙ run_as-proc fuel d p s y.type y typed owner pr out

  parse-seq :
      (fuel : ℕ) (type : BuildType) (x : Builder) (b n cur d p : ℕ) (s : State) (proc : Proc)
      → type ≡ seq_build
      → dec64 x.num_childs ≡ suc n
      → x.curr_build ≡ some cur
      → next_of cur x.child_q ≡ some d
      → csp_runbuild fuel d (counted s b x (suc n))
        ≡ ret tt (readied (counted s b x (suc n)) p proc)
      → parse_as fuel type x b s ≡ ret false (moved s b x (suc n) d p proc)
  unfolding parse_as
  parse-seq fuel type x b n cur d p s proc e left curr next runs =
      let more : (suc n == 0) ≡ false = ground arith in
      let s' : State = counted s b x (suc n) in
      let current : deref x.curr_build s' ≡ ret cur s' = rw curr in
      rw (e, left, more, current, next, runs, ==_refl b)

  -- The PROC of a part `c` of a SEQ ends, the SEQ has at least two parts left, and the part behind the
  -- current one is a PROC that is not ready. The SEQ, wherever in a tree, counts one part less, the
  -- next part becomes its current one, and that part's PROC is made ready; nothing else changes.
  pub parsebuild-moved :
      (fuel b c cur d p n : ℕ) (s : State) {x y : Builder} {proc : Proc}
      → Part s.builds b c
      → s.builds b ≡ some x
      → x.type ≡ seq_build
      → x.num_childs ≡ suc (suc n)
      → suc (suc n) < 2 ^ 64
      → x.curr_build ≡ some cur
      → next_of cur x.child_q ≡ some d
      → (b == d) ≡ false
      → s.builds d ≡ some y
      → y.type ≡ proc_build
      → y.proc ≡ some p
      → s.procs p ≡ some proc
      → elem p s.sched.ready_q ≡ false
      → csp_parsebuild (suc (suc (suc fuel))) c s ≡ ret tt (moved s b x (suc n) d p proc)
  parsebuild-moved fuel b c cur d p n s {x} {y} {proc} h at typed left small curr next other at_d
        typed_d owner pr out =
      let down : dec64 x.num_childs ≡ suc n = ap dec64 left ∙ dec64-suc (suc n) small in
      let f = suc (suc fuel) in
      let runs =
        run-proc fuel d p (counted s b x (suc n)) {y = y} {proc = proc} (rw other at_d) typed_d
          owner pr out in
      parse-done f c s s h.at (parse-proc f h.leaf.type h.leaf c s h.typed)
      ∙ done-child (csp_parsebuild f) f c b s h.at h.inner h.under
      ∙ parse-waits (suc fuel) b s (moved s b x (suc n) d p proc) at
          (parse-seq (suc fuel) x.type x b n cur d p s proc typed down curr next runs)
