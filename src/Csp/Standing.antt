-- ===== src/Csp/Standing.antt =====
-- Trees as they stand in the store until csp_cleanupbuild frees them.
use libproxc.Base.{
  ℕ, ◌≡◌, ◌∙◌, true, Option, some, List, [], ◌∷◌, ◌++◌, arith, elem, elem-append, ==_refl,
}
use libproxc.Store.{proc_build, par_build, seq_build, Builder}
use libproxc.Csp.Start.{Tree, Forest, proc, par, seq, nil, cons, root, roots}

-- The addresses of the builders of a tree.
unfoldable mutual
  pub nodes : Tree → List ℕ
  nodes (proc b p) = b ∷ []
  nodes (par b ts) = b ∷ nodes_all ts
  nodes (seq b t ts) = b ∷ nodes t ++ nodes_all ts

  pub nodes_all : Forest → List ℕ
  nodes_all nil = []
  nodes_all (cons t ts) = nodes t ++ nodes_all ts

-- The store holds the tree, whatever parts have been finished.
unfoldable mutual
  pub Standing : (ℕ → Option Builder) → Tree → Type 0
  Standing builds (proc b p) = (x : Builder) × (builds b ≡ some x) × (x.type ≡ proc_build)
  Standing builds (par b ts) =
      (x : Builder) × (builds b ≡ some x)
      × (x.type ≡ par_build)
      × (x.child_q ≡ roots ts)
      × StandingAll builds ts
  Standing builds (seq b t ts) =
      (x : Builder) × (builds b ≡ some x)
      × (x.type ≡ seq_build)
      × (x.child_q ≡ root t ∷ roots ts)
      × (Standing builds t × StandingAll builds ts)

  pub StandingAll : (ℕ → Option Builder) → Forest → Type 0
  StandingAll builds nil = Unit
  StandingAll builds (cons t ts) = Standing builds t × StandingAll builds ts

-- Only the builders of the tree count.
mutual
  unfolding nodes nodes_all Standing StandingAll

  pub Standing-same :
      (t : Tree) {builds builds' : ℕ → Option Builder}
      → ((q : ℕ) → elem q (nodes t) ≡ true → builds' q ≡ builds q)
      → Standing builds t
      → Standing builds' t
  Standing-same (proc b p) same (x, at, type) = (x, same b (rw (==_refl b)) ∙ at, type)
  Standing-same (par b ts) same (x, at, type, childs, all) = (
    x,
    same b (rw (==_refl b)) ∙ at,
    type,
    childs,
    StandingAll-same ts (λ q m. same q (ground (arith, m))) all,
  )
  Standing-same (seq b t ts) same (x, at, type, childs, (one, all)) = (
    x,
    same b (rw (==_refl b)) ∙ at,
    type,
    childs,
    (
      Standing-same t
          (λ q m. same q (rw (elem-append q (nodes t) (nodes_all ts)) (ground (arith, m)))) one,
      StandingAll-same ts
          (λ q m. same q (rw (elem-append q (nodes t) (nodes_all ts)) (ground (arith, m)))) all,
    ),
  )

  pub StandingAll-same :
      (ts : Forest) {builds builds' : ℕ → Option Builder}
      → ((q : ℕ) → elem q (nodes_all ts) ≡ true → builds' q ≡ builds q)
      → StandingAll builds ts
      → StandingAll builds' ts
  StandingAll-same nil same h = tt
  StandingAll-same (cons t ts) same (one, all) = (
    Standing-same t
        (λ q m. same q (rw (elem-append q (nodes t) (nodes_all ts)) (ground (arith, m)))) one,
    StandingAll-same ts
        (λ q m. same q (rw (elem-append q (nodes t) (nodes_all ts)) (ground (arith, m)))) all,
  )
