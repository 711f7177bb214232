-- ===== src/Proxc/Begun.antt =====
-- proxc_go on a single PROC, as proxc_proc makes it.
use libproxc.Base.{ℕ, suc, ◌≡◌, refl, true, false, none, some, [], ◌∷◌, ◌++◌, arith, elem, ==_refl}
use libproxc.Platform.{Platform}
use libproxc.Store.{State, Proc, Builder, proc_build, ret}
use libproxc.Csp.Start.{Tree, starts, depth, Stored}
use libproxc.Proc.Owned.{Started}
use libproxc.Proxc.Trees.{proxc_go}
use libproxc.Proxc.Run.{started, go-started}

module _ ⦃v : Platform⦄ where
  -- The builder `b` is for the PROC `p`, which is allocated and not ready. GO of it returns 0 and puts
  -- `p` last into the ready queue; the builder is then a root, and no PROC waits for it.
  pub go-Started :
      (fuel b p : ℕ) (s : State) {x : Builder} {proc : Proc}
      → s.builds b ≡ some x
      → x.type ≡ proc_build
      → x.proc ≡ some p
      → s.procs p ≡ some proc
      → elem p s.sched.ready_q ≡ false
      → (s' : State) × (proxc_go (suc fuel) b s ≡ ret 0 s')
        × Started s'.builds p b
        × (s'.sched.ready_q ≡ s.sched.ready_q ++ p ∷ [])
  unfolding starts depth Stored
  go-Started fuel b p s {x} {proc} at typed own held out = (
    started s none b x (p ∷ []),
    go-started (Tree.proc b p) (suc fuel) s (omega arith) (x, at, typed, own) at refl
        (record { held = proc; at = held; out = out }, tt),
    record {
      build = record x { is_root = true; run_proc = none };
      at = rw (==_refl b);
      typed = typed;
      is_root = refl;
      no_waiter = refl;
      own = own;
    },
    refl,
  )
