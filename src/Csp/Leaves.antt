-- ===== src/Csp/Leaves.antt =====
-- A forest of PROCs only.
use libproxc.Base.{ℕ, ◌≤◌, ◌≡◌, refl, ap, ◌∙◌, false, Option, some, List, [], ◌∷◌, arith, All}
use libproxc.Store.{proc_build, Builder}
use libproxc.Csp.Start.{Forest, proc, nil, cons, roots, depth_all, StoredAll}
use libproxc.Csp.Standing.{nodes_all, StandingAll}
use libproxc.Csp.Insert.{adopted}

-- The builders `cs`, that of `c` being for the PROC `run c`.
abbrev pub leaves : (run : ℕ → ℕ) → List ℕ → Forest
leaves run [] = nil
leaves run (c ∷ cs) = cons (proc c (run c)) (leaves run cs)

-- proxc_proc leaves the builder `c` of the PROC `run c` like this.
pub record Leaf (builds : ℕ → Option Builder) (run : ℕ → ℕ) (c : ℕ) : Type 0 where
  pub build : Builder
  pub at : builds c ≡ some build
  pub typed : build.type ≡ proc_build
  pub runs : build.proc ≡ some (run c)
  pub inner : build.is_root ≡ false

pub roots-leaves : (run : ℕ → ℕ) (cs : List ℕ) → roots (leaves run cs) ≡ cs
roots-leaves run [] = refl
roots-leaves run (c ∷ cs) = ap (λ l. c ∷ l) (roots-leaves run cs)

pub nodes-leaves : (run : ℕ → ℕ) (cs : List ℕ) → nodes_all (leaves run cs) ≡ cs
unfolding nodes_all
nodes-leaves run [] = refl
nodes-leaves run (c ∷ cs) = ap (λ l. c ∷ l) (nodes-leaves run cs)

pub depth-leaves : (run : ℕ → ℕ) (cs : List ℕ) → depth_all (leaves run cs) ≤ 1
unfolding depth_all
depth-leaves run [] = omega arith
depth-leaves run (c ∷ cs) = omega (arith, depth-leaves run cs)

pub StoredAll-leaves :
    (f : ℕ → Option Builder) (run : ℕ → ℕ) (cs : List ℕ)
    → All (Leaf f run) cs
    → StoredAll f (leaves run cs)
unfolding StoredAll
StoredAll-leaves f run [] all = tt
StoredAll-leaves f run (c ∷ cs) (h, all) =
    ((h.build, h.at, h.typed, h.runs), StoredAll-leaves f run cs all)

pub StandingAll-leaves :
    (f : ℕ → Option Builder) (run : ℕ → ℕ) (cs : List ℕ)
    → All (Leaf f run) cs
    → StandingAll f (leaves run cs)
unfolding StandingAll
StandingAll-leaves f run [] all = tt
StandingAll-leaves f run (c ∷ cs) (h, all) =
    ((h.build, h.at, h.typed), StandingAll-leaves f run cs all)

pub Leaf-adopted :
    (f f' : ℕ → Option Builder) (run : ℕ → ℕ) (b c : ℕ)
    → f' c ≡ adopted b (f c)
    → Leaf f run c
    → Leaf f' run c
Leaf-adopted f f' run b c e h = record {
  build = record h.build { parent = some b };
  at = e ∙ ap (adopted b) h.at;
  typed = h.typed;
  runs = h.runs;
  inner = h.inner;
}
