-- ===== src/Proxc/Family.antt =====
-- The builders of PROCs under a root that has just been made over them, whatever the root becomes.
use libproxc.Base.{
  ℕ, ◌≡◌, refl, ap, fun_ext, ◌∙◌, true, false, Option, some, List, ◌∷◌, arith, ◌==◌, elem, All,
  All-mono, All-elem, ne_of_elem, Bool-cases, inl, inr, update,
}
use libproxc.Store.{State, Builder}
use libproxc.Csp.Cleanup.{without}
use libproxc.Csp.Join.{Part}
use libproxc.Csp.Insert.{adopted}
use libproxc.Csp.Leaves.{Leaf, Leaf-adopted}
use libproxc.Proxc.Made.{Made}

module _ (f g : ℕ → Option Builder) (run : ℕ → ℕ) (b : ℕ) (x : Builder) (cs : List ℕ)
    (out : elem b cs ≡ false) (h : Made f g b x cs) (all : All (Leaf f run) cs) where
  pub leaves-made : All (Leaf g run) cs
  leaves-made = All-mono cs (λ c m l. Leaf-adopted f g run b c (h.childs c m) l) all

  module _ (y : Builder) where
    pub leaves-over : All (Leaf (update g b (some y)) run) cs
    leaves-over =
        All-mono cs
          (λ c m l.
            let e : update g b (some y) c ≡ adopted b (f c) =
              rw (ne_of_elem b c cs out m) (h.childs c m) in
            Leaf-adopted f (update g b (some y)) run b c e l)
          all

    pub leaf-Part : (c : ℕ) → elem c cs ≡ true → Part (update g b (some y)) b c
    leaf-Part c m =
        let l = All-elem (Leaf f run) cs c all m in
        let ne = ne_of_elem b c cs out m in
        record {
          leaf = record l.build { parent = some b };
          at = rw (ne) (h.childs c m ∙ ap (adopted b) l.at);
          typed = l.typed;
          inner = l.inner;
          under = refl;
          below = ne;
        }

    -- With the root and its parts gone the store has the builders that it had.
    pub without-over :
        (s : State)
        → without (record s { builds = update g b (some y) }) (b ∷ cs)
          ≡ without (record s { builds = f }) (b ∷ cs)
    without-over s =
        ap (λ (k : ℕ → Option Builder). record s { builds = k })
          (fun_ext λ q. elim (Bool-cases (elem q cs)) [
            | inl m ↦ elim (Bool-cases (q == b)) [ inl e ↦ rw (e) | inr ne ↦ rw (ne, m) ]
            | inr off ↦ elim (Bool-cases (b == q)) [
              | inl here ↦ let back : (q == b) ≡ true = ground (arith, here) in rw (off, back)
              | inr ne ↦
                  let back : (q == b) ≡ false = ground (arith, ne) in
                  rw (off, back, ne, h.kept q off ne)
            ]
          ])
