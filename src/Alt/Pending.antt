-- ===== src/Alt/Pending.antt =====
-- alt_disable undoes alt_enable on a time guard whose time is not up in between.
use libproxc.Base.{
  ℕ, suc, ◌+◌, ◌-◌, ◌^◌, ◌<◌, ◌≡◌, refl, ap, ◌∙◌, true, false, none, some, List, [], ◌∷◌, arith,
  ◌==◌, ==_refl, elem, erase,
}
use libproxc.Platform.{Platform, find_key, insert_sorted, sorted_by}
use libproxc.Platform.Links.{rb_insert}
use libproxc.Platform.Keys.{sorted_by-insert_sorted, elem-insert_sorted}
use libproxc.Store.{State, Proc, Guard, Alt, guard_time, ret}
use libproxc.Scheduler.Sleep.{
  u64, dec64, max_tries, usec_at, altsleep_cmp, insert_altsleep, addaltsleep_loop,
  scheduler_addaltsleep,
}
use libproxc.Alt.Select.{enable_as, disable_as, alt_enable, alt_disable}
use libproxc.Alt.Timeout.{unslept, remaltsleep-eq_ite}

erase-insert_sorted :
    (key : ℕ → ℕ) (x : ℕ) (t : List ℕ) → elem x t ≡ false → erase x (insert_sorted key x t) ≡ t
erase-insert_sorted key x [] out = rw (==_refl x)
erase-insert_sorted key x (y ∷ t) out = ground (arith, out, ==_refl x, erase-insert_sorted key x t)

-- The store with the time guard `g` in the tree.
abbrev pending : State → (g : ℕ) → State
pending s g = record s {
  sched = record s.sched {
    altsleep_rb = insert_sorted (usec_at s) g s.sched.altsleep_rb;
    altsleep_num = u64 (s.sched.altsleep_num + 1);
  };
}

own_usec : (s : State) (g : ℕ) {guard : Guard} → s.guards g ≡ some guard → usec_at s g ≡ guard.usec
own_usec s g h = rw (h, usec_at)

module _ ⦃v : Platform⦄ where
  module _ (s : State) (g : ℕ) (out : elem g s.sched.altsleep_rb ≡ false)
      (sorted : sorted_by (usec_at s) s.sched.altsleep_rb ≡ true)
      (free : find_key (usec_at s) (usec_at s g) s.sched.altsleep_rb ≡ none) where
    insert_altsleep-free :
        insert_altsleep g s
        ≡ ret none (record s {
          sched = record s.sched { altsleep_rb = insert_sorted (usec_at s) g s.sched.altsleep_rb };
        })
    unfolding insert_altsleep rb_insert
    insert_altsleep-free =
        let law =
          v.rb_insert_lem (altsleep_cmp s) (usec_at s) (λ a b. refl) s.sched.altsleep_rb g out
            sorted in
        rw (out, law, free)

    addaltsleep_loop-free :
        (left : ℕ)
        → addaltsleep_loop (suc left) g s
          ≡ ret (max_tries - suc left) (record s {
            sched = record s.sched {
              altsleep_rb = insert_sorted (usec_at s) g s.sched.altsleep_rb;
            };
          })
    unfolding addaltsleep_loop
    addaltsleep_loop-free left = rw (insert_altsleep-free)

  restored :
      (s : State) (g : ℕ)
      → elem g s.sched.altsleep_rb ≡ false
      → s.sched.altsleep_num + 1 < 2 ^ 64
      → unslept (pending s g) g ≡ s
  restored s g out room =
      ap
        (λ (t : List ℕ). record s {
          sched = record s.sched {
            altsleep_rb = t;
            altsleep_num = dec64 (u64 (s.sched.altsleep_num + 1));
          };
        })
        (erase-insert_sorted (usec_at s) g s.sched.altsleep_rb out)
      ∙ ap (λ (n : ℕ). record s { sched = record s.sched { altsleep_num = n } }) (omega arith)

  -- A time guard with a time is not in the tree of sleepers, the times of which grow strictly and do not
  -- include its own; the tree's count can go up. Then alt_enable reports it not ready and puts it into
  -- the tree, whose times still grow strictly, and alt_disable restores the store.
  pub alt_disable-alt_enable :
      (s : State) (g : ℕ) {a : ℕ} {guard : Guard} {alt : Alt} {proc : Proc}
      → s.guards g ≡ some guard
      → guard.type ≡ guard_time
      → guard.alt ≡ some a
      → s.alts a ≡ some alt
      → s.procs alt.proc ≡ some proc
      → (guard.usec == 0) ≡ false
      → elem g s.sched.altsleep_rb ≡ false
      → sorted_by (usec_at s) s.sched.altsleep_rb ≡ true
      → find_key (usec_at s) guard.usec s.sched.altsleep_rb ≡ none
      → s.sched.altsleep_num + 1 < 2 ^ 64
      → (s' : State) × (alt_enable g s ≡ ret false s')
        × (elem g s'.sched.altsleep_rb ≡ true)
        × (sorted_by (usec_at s') s'.sched.altsleep_rb ≡ true)
        × (alt_disable g s' ≡ ret tt s)
  unfolding alt_enable enable_as alt_disable disable_as scheduler_addaltsleep
  alt_disable-alt_enable s g {a} {guard} {alt} {proc} h type m at pr set out sorted free room =
      let free' : find_key (usec_at s) (usec_at s g) s.sched.altsleep_rb ≡ none =
        ap (λ (k : ℕ). find_key (usec_at s) k s.sched.altsleep_rb) (own_usec s g h) ∙ free in
      let loops : addaltsleep_loop max_tries g s
          ≡ ret 0 (record s {
            sched = record s.sched {
              altsleep_rb = insert_sorted (usec_at s) g s.sched.altsleep_rb;
            };
          }) =
        addaltsleep_loop-free s g out sorted free' 999 in
      let there : elem g (insert_sorted (usec_at s) g s.sched.altsleep_rb) ≡ true =
        elem-insert_sorted (usec_at s) g g s.sched.altsleep_rb ∙ rw (==_refl g) in
      let gone =
        remaltsleep-eq_ite (pending s g) g {a = a} {guard = guard} {alt = alt} {proc = proc} h m at
          pr in
      (
        pending s g,
        rw (h, type, h, set, m, at, pr, loops),
        there,
        sorted_by-insert_sorted (usec_at s) g s.sched.altsleep_rb free' sorted,
        rw (h, type, gone, there) (ap (λ (u : State). ret tt u) (restored s g out room)),
      )
