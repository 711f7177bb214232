-- ===== src/Alt/Taken.antt =====
-- A whole communication of an alternation with a writer that waits: alt_select takes its data, and
-- lets it go on.
use libproxc.Base.{
  All-elem, ℕ, ℤ, ◌<◌, ◌≡◌, refl, sym, ◌∙◌, Bool, true, false, not, ◌&&◌, Option, some, List, [],
  ◌∷◌, ◌++◌, arith, ==_refl, elem, distinct, length, update, All, ltb, lt→ltb, inl, inr,
}
use mathlib.Core.List.{reverse}
use libproxc.Platform.{Platform}
use libproxc.Store.{
  State, Scheduler, Proc, ChanEndType, guard_chan, Guard, Chan, Alt, M, Run, ret, yielded, pure,
  ◌>>=◌, load_alt, load_guard, deref,
}
use libproxc.Chan.Copy.{chan_copydata}
use libproxc.Chan.Keeps.{Ends}
use libproxc.Chan.Ops.{chan_altread}
use libproxc.Chan.Ops.Parts.{handed, with_chan}
use libproxc.Chan.Guarded.{altread-handed}
use libproxc.Scheduler.Queues.{proc_yield}
use libproxc.Alt.Select.{
  is_chan, enable_guards, alt_choose, disable_guards, alt_complete, alt_select,
}
use libproxc.Alt.Winner.{choose-elem_ready}
use libproxc.Alt.Queues.{joined, marked}
use libproxc.Alt.Offers.{Offered, Stands, idle_of}
use libproxc.Alt.Ready.{enable_guards-Noted}
use libproxc.Alt.Unready.{offered-kept, disable-undoes}
use libproxc.Alt.Rendezvous.{started}

length_pos_of_elem : (x : ℕ) (xs : List ℕ) → elem x xs ≡ true → 0 < length xs
length_pos_of_elem x [] m = absurd (cc m)
length_pos_of_elem x (y ∷ xs) m = omega arith

-- What is left of alt_select when its PROC is resumed.
abbrev pub key_rest : ℕ → M ℤ
key_rest a = do
  final ← load_alt a
  last ← deref final.winner
  guard ← load_guard last
  pure guard.key

rest-key :
    (t : State) (a g : ℕ) {alt : Alt} {guard : Guard}
    → t.alts a ≡ some alt
    → alt.winner ≡ some g
    → t.guards g ≡ some guard
    → key_rest a t ≡ ret guard.key t
rest-key t a g at won guard_at = rw (at, won, guard_at)

offered-at :
    (chan_of : ℕ → ℕ) (offers : ℕ → Bool) (Writes : ℕ → Type 0) (f : ℕ → Option Chan)
    (gr : ℕ → Option Guard) (g : ℕ)
    → offers g ≡ true
    → Stands chan_of offers Writes f gr g
    → Offered chan_of Writes f gr g
offered-at chan_of offers Writes f gr g o (inl (_, w)) = w
offered-at chan_of offers Writes f gr g o (inr (n, _)) = absurd (cc (o, n))

module _ ⦃v : Platform⦄ where
  complete-yields :
      (s s' : State) (a g c : ℕ) {guard : Guard} {alt : Alt} {self : ℕ}
      → s.guards g ≡ some guard
      → guard.type ≡ guard_chan
      → guard.in_chan ≡ false
      → guard.chan ≡ some c
      → chan_altread c g guard.data_size s ≡ ret tt s'
      → s'.alts a ≡ some alt
      → ltb 0 alt.ready_num ≡ true
      → s'.sched.curr_proc ≡ some self
      → alt_complete a g s ≡ yielded s' (λ t. ret tt t)
  unfolding alt_complete proc_yield
  complete-yields s s' a g c {guard} at typed outside on reads alt_at ready current =
      let takes : (is_chan guard.type && not guard.in_chan) ≡ true = rw (typed, outside) in
      rw (at, takes, on, reads, alt_at, ready, current)

  select-yields :
      (s s1 s2 s3 s4 : State) (rand a g : ℕ) {alt chosen : Alt}
      → s.alts a ≡ some alt
      → enable_guards a alt.guards_q (record s { alts = update s.alts a (some (started alt)) })
        ≡ ret tt s1
      → alt_choose rand a s1 ≡ ret tt s2
      → s2.alts a ≡ some chosen
      → chosen.winner ≡ some g
      → disable_guards (reverse chosen.guards_q) s2 ≡ ret tt s3
      → alt_complete a g s3 ≡ yielded s4 (λ t. ret tt t)
      → alt_select true rand a s ≡ yielded s4 (key_rest a)
  unfolding alt_select
  select-yields s s1 s2 s3 s4 rand a g at enables chooses chosen_at won disables completes =
      rw (at, enables, chooses, chosen_at, won, disables, completes)

  module _ (chan_of : ℕ → ℕ) (s : State) (rand a : ℕ) (procs' : ℕ → Option Proc)
      (chans' : ℕ → Option Chan) (bytes' : ℕ → ℕ) (sched' : Scheduler) where
    -- alt_select takes the data of the writer that waits first at the guard `g`, and makes it ready; the
    -- other channels stay as they are. Resumed, it returns the key of `g`.
    abbrev pub Takes :
        (g : ℕ) → Offered chan_of (Ends s ChanEndType.writer) s.chans s.guards g → Type 0
    Takes g h =
        (s1 s2 : State) × (k : State → Run ℤ) × (alt_select true rand a s ≡ yielded s1 k)
        × (s1.chans ≡ update s.chans (chan_of g) (some (record h.chan { end_q = h.q })))
        × (s1.bytes
            ≡ chan_copydata s.bytes h.guard.data_ptr h.writes.chan_end.data_ptr h.chan.data_size)
        × (s1.sched.ready_q ≡ s.sched.ready_q ++ h.e ∷ [])
        × (k (record s1 { procs = procs'; chans = chans'; bytes = bytes'; sched = sched' })
            ≡ ret h.guard.key s2)

    module _ (offers : ℕ → Bool) {alt : Alt} {self : ℕ} (at : s.alts a ≡ some alt)
        (once : distinct alt.guards_q ≡ true)
        (all : All
          (Stands chan_of offers (Ends s ChanEndType.writer) s.chans s.guards)
          alt.guards_q)
        (current : s.sched.curr_proc ≡ some self) where
      -- The store after enable_guards.
      abbrev noted : (ℕ → Option Alt) → State
      noted alts' = record s {
        chans = joined chan_of (idle_of offers alt.guards_q) s.chans;
        guards = marked (idle_of offers alt.guards_q) s.guards;
        alts = alts';
      }

      chosen-Takes :
          (alts' : ℕ → Option Alt) (now : List ℕ) (g : ℕ)
          (h : Offered chan_of (Ends s ChanEndType.writer) s.chans s.guards g)
          → offers g ≡ true
          → 0 < length now
          → enable_guards a alt.guards_q (record s { alts = update s.alts a (some (started alt)) })
            ≡ ret tt (noted alts')
          → (let chosen : Alt = record alt {
            ready_num = length now;
            ready_guards = some now;
            winner = some g;
          } in
              alt_choose rand a (noted alts')
              ≡ ret tt (record (noted alts') { alts = update alts' a (some chosen) }))
          → Takes g h
      chosen-Takes alts' now g h o some_ready enables chooses =
          let gs = alt.guards_q in
          let chosen : Alt = record alt {
            ready_num = length now;
            ready_guards = some now;
            winner = some g;
          } in
          let s2 : State = record (noted alts') { alts = update alts' a (some chosen) } in
          let s3 : State = record s2 { chans = s.chans } in
          let undoes =
            disable-undoes chan_of offers (Ends s ChanEndType.writer) s.chans s.guards gs s2 once
              all refl refl in
          let same : s3.guards g ≡ some h.guard =
            offered-kept chan_of offers (Ends s ChanEndType.writer) s.chans s.guards gs once all g o
            ∙ h.at in
          let s4 : State =
            handed (with_chan s3 (chan_of g) (record h.chan { end_q = h.q })) h.e h.writes.proc
              h.guard.data_ptr h.writes.chan_end.data_ptr h.chan.data_size in
          let reads : chan_altread (chan_of g) g h.guard.data_size s3 ≡ ret tt s4 =
            altread-handed s3 (chan_of g) g h.chan_at same h.guard.data_size h.queue h.writes
              h.sized in
          let completes =
            complete-yields s3 s4 a g (chan_of g) {alt = chosen} same h.typed h.outside h.on reads
              (rw (==_refl a)) (lt→ltb 0 (length now) some_ready) current in
          let t : State = record s4 {
            procs = procs';
            chans = chans';
            bytes = bytes';
            sched = sched';
          } in
          (
            s4,
            t,
            key_rest a,
            select-yields s (noted alts') s2 s3 s4 rand a g {chosen = chosen} at enables chooses
                (rw (==_refl a)) refl undoes completes,
            refl,
            refl,
            refl,
            rest-key t a g {alt = chosen} (rw (==_refl a)) refl same,
          )

      -- At some of the guards of an alternation on channels a writer waits first, at `g0` for one, and at
      -- the others no PROC waits. Whatever rand() gives, alt_select chooses a guard at which a writer
      -- waits: it takes this writer off the channel, copies its data to where the guard wants them,
      -- makes it ready, and yields; all other channels are as before. Resumed with any PROCs, channels,
      -- memory and scheduler, it returns the key of that guard.
      pub select-Takes :
          (g0 : ℕ)
          → elem g0 alt.guards_q ≡ true
          → offers g0 ≡ true
          → (g : ℕ) × (h : Offered chan_of (Ends s ChanEndType.writer) s.chans s.guards g) × (elem g
                alt.guards_q
              ≡ true)
            × (offers g ≡ true)
            × Takes g h
      select-Takes g0 mine0 o0 =
          let (alts', now, enables, at', n) =
            enable_guards-Noted chan_of offers a alt.guards_q []
              (record s { alts = update s.alts a (some (started alt)) }) (started alt) once all
              (rw (==_refl a)) in
          let some_ready : 0 < length now =
            length_pos_of_elem g0 now (n.members g0 ∙ ground (arith, mine0, o0)) in
          let (g, chooses, m) =
            choose-elem_ready (noted alts') rand a
              {alt = record alt { ready_num = length now; ready_guards = some now }} at' refl refl
              some_ready in
          let both : (elem g alt.guards_q && offers g) ≡ true = sym (n.members g) ∙ m in
          let mine : elem g alt.guards_q ≡ true = ground (arith, both) in
          let o : offers g ≡ true = ground (arith, both) in
          let h =
            offered-at chan_of offers (Ends s ChanEndType.writer) s.chans s.guards g o
              (All-elem _ alt.guards_q g all mine) in
          (g, h, mine, o, chosen-Takes alts' now g h o some_ready enables chooses)
