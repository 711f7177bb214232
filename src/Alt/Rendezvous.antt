-- ===== src/Alt/Rendezvous.antt =====
-- A whole communication of an alternation: alt_select waits at its channels, another PROC writes to one
-- of them, and alt_select goes on.
use libproxc.Base.{
  ℕ, ℤ, ◌≡◌, refl, ap, ◌∙◌, Bool, true, false, ◌&&◌, Option, some, List, [], ◌∷◌, arith, ◌==◌,
  ==_refl, ==_iff, Bool-cases, inl, inr, ◌++◌, elem, distinct, distinct-uncons, update, All, ltb,
}
use mathlib.Core.Path.{subst}
use mathlib.Core.List.{reverse}
use libproxc.Platform.{Platform}
use libproxc.Store.{
  State, Scheduler, Proc, ProcState, Guard, Chan, Alt, M, Run, ret, yielded, pure, ◌>>=◌, ◌>>◌,
  load_alt, load_guard, assert_notnull, deref,
}
use libproxc.Chan.Copy.{chan_copydata}
use libproxc.Chan.Ops.{chan_write}
use libproxc.Chan.Ops.Open.{AlterAt, Caller}
use libproxc.Chan.Ops.Parts.{handed, write_alt-accepted}
use libproxc.Chan.Write.{write-alter}
use libproxc.Chan.Rendezvous.{running}
use libproxc.Scheduler.Queues.{proc_yield}
use libproxc.Alt.Winner.{accepted}
use libproxc.Alt.Select.{is_chan, alt_choose, disable_guards, alt_complete, alt_select}
use libproxc.Alt.Queues.{marked-other, joined, marked, marks, parted, Idle, enable_guards-joined}
use libproxc.Alt.Leave.{joined-All_Linked, disable-reverse, parted-joined}

and_false : (b : Bool) → (b && false) ≡ false
and_false b = ground arith

marked-elem :
    (gs : List ℕ) (f : ℕ → Option Guard) (g : ℕ)
    → distinct gs ≡ true
    → elem g gs ≡ true
    → marked gs f g ≡ marks (f g)
marked-elem [] f g d m = absurd (cc m)
marked-elem (x ∷ gs) f g d m =
    let (out, once) = distinct-uncons x gs d in
    elim (Bool-cases (x == g)) [
      | inl here ↦
          let same : x ≡ g = (==_iff x g).0 here in
          marked-other gs (update f x (marks (f x))) g (subst (λ y. elem y gs ≡ false) same out)
          ∙ rw here (ap (λ y. marks (f y)) same)
      | inr other ↦
          marked-elem gs (update f x (marks (f x))) g once (ground (arith, m, other)) ∙ rw other
    ]

-- The alternation that has begun to choose.
abbrev pub started : Alt → Alt
started alt = record alt { ready_num = 0; ready_guards = some [] }

module _ ⦃v : Platform⦄ where
  -- What alt_select does when its PROC is resumed.
  abbrev pub select_rest : ℕ → M ℤ
  select_rest a = do
    chosen ← load_alt a
    winner ← assert_notnull chosen.winner
    disable_guards (reverse chosen.guards_q)
    alt_complete a winner
    final ← load_alt a
    last ← deref final.winner
    guard ← load_guard last
    pure guard.key

  choose-waits :
      (s : State) (rand a : ℕ) {alt : Alt} {proc : Proc} {self : ℕ}
      → s.alts a ≡ some alt
      → ltb 0 alt.ready_num ≡ false
      → alt.is_accepted ≡ false
      → s.procs alt.proc ≡ some proc
      → s.sched.curr_proc ≡ some self
      → alt_choose rand a s
        ≡ yielded
            (record s {
              procs = update s.procs alt.proc (some (record proc { state = ProcState.altwait }));
            })
            (λ t. ret tt t)
  unfolding alt_choose proc_yield
  choose-waits s rand a at none_ready free proc_at current =
      rw (at, none_ready, free, proc_at, current)

  -- The guard that has won is a channel's, and its data has come.
  rest-returns :
      (t t' : State) (a g : ℕ) {alt : Alt} {guard : Guard}
      → t.alts a ≡ some alt
      → alt.winner ≡ some g
      → ltb 0 alt.ready_num ≡ false
      → disable_guards (reverse alt.guards_q) t ≡ ret tt t'
      → t'.alts a ≡ some alt
      → t'.guards g ≡ some guard
      → guard.in_chan ≡ true
      → select_rest a t ≡ ret guard.key t'
  unfolding alt_complete
  rest-returns t t' a g {alt} {guard} at won none_ready disables at' guard_at inside = rw (
    at,
    won,
    disables,
    guard_at,
    inside,
    and_false (is_chan guard.type),
    at',
    none_ready,
    at',
    won,
    guard_at,
  )

  -- The store while the PROC of the alternation `a` waits at its channels.
  abbrev pub asked : (chan_of : ℕ → ℕ) → State → (a : ℕ) → Alt → Proc → State
  asked chan_of s a alt proc = record s {
    procs = update s.procs alt.proc (some (record proc { state = ProcState.altwait }));
    chans = joined chan_of alt.guards_q s.chans;
    guards = marked alt.guards_q s.guards;
    alts = update s.alts a (some (started alt));
  }

  module _ (chan_of : ℕ → ℕ) (s : State) (rand a : ℕ) {alt : Alt} {proc : Proc}
      (at : s.alts a ≡ some alt) (free : alt.is_accepted ≡ false)
      (once : distinct alt.guards_q ≡ true)
      (idle : All (Idle chan_of s.chans s.guards) alt.guards_q)
      (caller : Caller s alt.proc proc) where
    select-waits : alt_select true rand a s ≡ yielded (asked chan_of s a alt proc) (select_rest a)
    unfolding alt_select
    select-waits =
        let s0 : State = record s { alts = update s.alts a (some (started alt)) } in
        let s1 : State = record s0 {
          chans = joined chan_of alt.guards_q s.chans;
          guards = marked alt.guards_q s.guards;
        } in
        let waits =
          choose-waits s1 rand a {alt = started alt} {proc = proc} {self = alt.proc}
            (rw (==_refl a)) refl free caller.at caller.current in
        rw (at, enable_guards-joined chan_of a alt.guards_q s0 once idle, waits)

    -- The guards of an alternation are on channels at which no PROC waits, and in none of their queues.
    -- alt_select puts them there and waits. A write of the channel's size by another PROC, on a channel
    -- where the guard `g` of the alternation is first in the queue, then returns 1: `g` is accepted, the
    -- written bytes are copied to where `g` wants them, and the PROC of the alternation is made ready.
    -- Resumed after it, with any memory, PROCs and scheduler, alt_select returns the key of `g`, and
    -- leaves every channel as it was at the start.
    pub select-then-write :
        (c dat w : ℕ) (proc_w : Proc) (m : ℕ → ℕ) (g : ℕ) {chan : Chan} {guard : Guard} {q : List ℕ}
        (procs' : ℕ → Option Proc) (bytes' : ℕ → ℕ) (sched' : Scheduler)
        → elem g alt.guards_q ≡ true
        → s.guards g ≡ some guard
        → guard.alt ≡ some a
        → guard.ch_end.guard ≡ some g
        → guard.ch_end.proc ≡ some alt.proc
        → joined chan_of alt.guards_q s.chans c ≡ some chan
        → chan.alt_q ≡ g ∷ q
        → (w == alt.proc) ≡ false
        → (s1 s2 s3 : State) × (k : State → Run ℤ) × (alt_select true rand a s ≡ yielded s1 k)
          × (chan_write c dat chan.data_size (running s1 w proc_w m) ≡ ret 1 s2)
          × (s2.bytes ≡ chan_copydata m guard.ch_end.data_ptr dat chan.data_size)
          × (s2.sched.ready_q ≡ s.sched.ready_q ++ alt.proc ∷ [])
          × (k (record s2 { procs = procs'; bytes = bytes'; sched = sched' }) ≡ ret guard.key s3)
          × (s3.chans ≡ s.chans)
    select-then-write c dat w proc_w m g {chan} {guard} {q} procs' bytes' sched' mine guard_at
          member own alter chan_at first other =
        let s1 : State = asked chan_of s a alt proc in
        let now : State = running s1 w proc_w m in
        let inside : now.guards g ≡ some (record guard { in_chan = true }) =
          marked-elem alt.guards_q s.guards g once mine ∙ ap marks guard_at in
        let waiting : AlterAt (λ _. a) now.guards now.alts now.procs now.sched.ready_q g = record {
          guard = record guard { in_chan = true };
          at = inside;
          own = own;
          a = a;
          member = member;
          alt = started alt;
          alt_at = rw (==_refl a);
          p = alt.proc;
          only = refl;
          alter = alter;
          proc = record proc { state = ProcState.altwait };
          proc_at = rw (other, ==_refl alt.proc);
          waits = λ _. refl;
          out = λ _. caller.out;
        } in
        let chosen : Alt = record (started alt) { is_accepted = true; winner = some g } in
        let s2 : State =
          handed (accepted now a g (started alt)) alt.proc
            (record proc { state = ProcState.altwait }) guard.ch_end.data_ptr dat chan.data_size in
        let t : State = record s2 { procs = procs'; bytes = bytes'; sched = sched' } in
        let t' : State = record t {
          chans = parted chan_of (reverse alt.guards_q) (joined chan_of alt.guards_q s.chans);
        } in
        (
          s1,
          s2,
          t',
          select_rest a,
          select-waits,
          write-alter now c dat chan.data_size chan_at (==_refl chan.data_size)
              (write_alt-accepted now c dat chan.data_size chan_at first waiting free),
          refl,
          refl,
          rest-returns t t' a g {alt = chosen} {guard = record guard { in_chan = true }}
              (rw (==_refl a)) refl refl
              (disable-reverse chan_of alt.guards_q t once
                (joined-All_Linked chan_of s.chans s.guards alt.guards_q once idle))
              (rw (==_refl a)) inside refl,
          parted-joined chan_of s.chans s.guards alt.guards_q once idle,
        )
