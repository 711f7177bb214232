-- ===== src/Proxc/InTurn.antt =====
-- RUN(SEQ(...)) of PROCs as a whole: they run one after the other, and RUN returns.
use libproxc.Base.{
  ℕ, suc, ◌≤◌, ◌<◌, ◌^◌, ◌≡◌, refl, ap, ◌∙◌, true, false, none, some, List, [], ◌∷◌, ◌++◌, arith,
  elem, All, All-mono, length, distinct, distinct-cons, update,
}
use libproxc.Platform.{Platform}
use libproxc.Store.{State, Proc, Builder, seq_build, ret, yielded}
use libproxc.Scheduler.Queues.Fifo.{readied}
use libproxc.Scheduler.Queues.Many.{Addable}
use libproxc.Csp.Finish.{csp_parsebuild}
use libproxc.Csp.Start.{starts}
use libproxc.Csp.Cleanup.{without}
use libproxc.Csp.Insert.{arguments, Allocated}
use libproxc.Csp.Leaves.{Leaf}
use libproxc.Proxc.Family.{leaves-made, leaves-over, leaf-Part, without-over}
use libproxc.Proxc.Trees.{proxc_seq, proxc_run}
use libproxc.Proxc.Made.{made_build, not_elem, blank-Made, seq-runs, curr-Made}
use libproxc.Proxc.Run.{run_waiting, run-waits}
use libproxc.Proxc.Current.{elem-mid, at_part, tree, tree-Stored, tree-depth, part-moves, last-ends}

module _ ⦃v : Platform⦄ where
  -- The builders `c1 ∷ rest` are those of PROCs, distinct and no root of a run, fewer than 2^64; the PROC
  -- of `c1` is allocated and not ready; `b` is not allocated. The allocated PROC `p` makes a SEQ of them
  -- at `b` and runs it: both succeed, only the PROC of `c1` is made ready, which is now the current part
  -- of all that are left, and `p` waits, to return 0 from RUN. Whatever happens to the rest of the store
  -- until the part `c`, with `d` behind it, is the current one: when the PROC of `c` ends, that of `d`,
  -- which is not ready, is made ready, and `d` is the current part of one part less. And whatever happens
  -- until the last part `e` is the current one: when its PROC ends, `p`, which is not ready, is made ready,
  -- and all builders made for the SEQ are freed, while the others are as they were before SEQ.
  pub seq-in_turn :
      (run : ℕ → ℕ) (fuel b p c1 c d e : ℕ) (rest before after front : List ℕ) (s s' s'' : State)
      {self q q' : Proc}
      → 1 ≤ fuel
      → s.builds b ≡ none
      → All (Leaf s.builds run) (c1 ∷ rest)
      → distinct (c1 ∷ rest) ≡ true
      → length (c1 ∷ rest) < 2 ^ 64
      → Addable s.procs s.sched.ready_q (run c1)
      → s.sched.curr_proc ≡ some p
      → s.procs p ≡ some self
      → c1 ∷ rest ≡ before ++ c ∷ d ∷ after
      → s'.procs (run d) ≡ some q
      → elem (run d) s'.sched.ready_q ≡ false
      → c1 ∷ rest ≡ front ++ e ∷ []
      → s''.procs p ≡ some q'
      → elem p s''.sched.ready_q ≡ false
      → (made waiting : State) × (proxc_seq (some b) (arguments (c1 ∷ rest)) s ≡ ret (some b) made)
        × (proxc_run (suc fuel) b made ≡ yielded waiting (λ u. ret 0 u))
        × (waiting.sched.ready_q ≡ s.sched.ready_q ++ run c1 ∷ [])
        × (waiting.builds
            ≡ update made.builds b (some (at_part p (c1 ∷ rest) c1 (length (c1 ∷ rest)))))
        × (csp_parsebuild (suc (suc (suc fuel))) c (record s' {
          builds = update made.builds b (some (at_part p (c1 ∷ rest) c (suc (suc (length after)))));
        })
            ≡ ret tt (
                readied
                  (record s' {
                    builds =
                        update made.builds b (some (at_part p (c1 ∷ rest) d (suc (length after))));
                  })
                  (run d)
                  q))
        × (csp_parsebuild
              (suc (suc (suc fuel)))
              e
              (record s'' { builds = update made.builds b (some (at_part p (c1 ∷ rest) e 1)) })
            ≡ ret tt (without (readied (record s'' { builds = s.builds }) p q') (b ∷ c1 ∷ rest)))
  unfolding starts
  seq-in_turn run fuel b p c1 c d e rest before after front s s' s'' {self} {q} {q'} enough fresh
        all once small first curr at_p split at_d out_d ends at_p' out_p =
      let L = c1 ∷ rest in
      let held : All (Allocated s.builds) L = All-mono L (λ a m l. (l.build, l.at)) all in
      let out = not_elem s.builds b L fresh held in
      let (f, runs, h) = blank-Made b seq_build L s fresh once small held in
      let x = made_build seq_build (some c1) L in
      let g = update f b (some x) in
      let k = curr-Made s.builds f b seq_build (some c1) L out h in
      let made : State = record s { builds = g } in
      let t = tree g run b c1 rest in
      let over = λ (y : Builder). leaves-over s.builds g run b x L out k all y in
      let c_in : elem c L ≡ true = ap (elem c) split ∙ elem-mid before c (d ∷ after) in
      let e_in : elem e L ≡ true = ap (elem e) ends ∙ elem-mid front e [] in
      let stored = tree-Stored g run b c1 rest k.own (leaves-made s.builds g run b x L out k all) in
      let y = at_part p L c (suc (suc (length after))) in
      let z = at_part p L e 1 in
      (
        made,
        run_waiting made p b x (starts t),
        seq-runs b L s f runs h.own,
        (run-waits t (suc fuel) p made {x = x} (omega (arith, enough, tree-depth g run b c1 rest))
            stored k.own refl (first, tt) curr at_p).1,
        refl,
        refl,
        part-moves g run fuel b p c d before after L s' split once small out (over y)
            (leaf-Part s.builds g run b x L out k all y c c_in) at_d out_d,
        last-ends g run fuel b p c1 e rest s'' enough (distinct-cons b L out once) (over z)
              (leaf-Part s.builds g run b x L out k all z e e_in) at_p' out_p
            ∙ ap (λ (u : State). ret tt u)
                (without-over s.builds g run b x L out k all z (readied s'' p q')),
      )
