-- ===== src/Maps/FixedSize/Last.antt =====
-- pdatastructures/TMHashMapFixedSize.hpp: the end of the loop of `innerPut`.
use plsf.Prelude.{ℕ, ◌≡◌, ◌≢◌, refl, true, none, some, sym, ◌∙◌, update, update_ne, ==_of_ne}
use plsf.Lists.Nodes.{null, done}
use plsf.Maps.FixedSize.{Node, HashMap, put_last}
use plsf.Maps.FixedSize.Cells.{Cell, linked, load_lem}
use plsf.Maps.FixedSize.Appended.{some-ne}
use plsf.Maps.FixedSize.Operations.{change_lem}

module _ (a k val h : ℕ) (m : HashMap) where
  pub put_last-reused :
      (prev r : ℕ) (c : Cell) (v : ℕ)
      → m.nodes r ≡ some (linked c v)
      → c.is_active ≡ 0
      → r ≢ null
      → put_last a k val h prev r m
        ≡ done true (record m {
          nodes = update m.nodes r (some (record { key = k; val = val; next = v; is_active = 1 }));
        })
  unfolding put_last
  put_last-reused prev r c v e i z = rw (==_of_ne r null z) (
      rw (load_lem r m (linked c v) e) (
        rw i (
          rw (change_lem r (λ d. record d { key = k; val = val; is_active = 1 }) m (linked c v) e)
            refl)))

  pub put_last-first :
      put_last a k val h null null m
      ≡ done true (record m {
        nodes = update m.nodes a (some (record { key = k; val = val; next = null; is_active = 1 }));
        buckets = update m.buckets h a;
      })
  unfolding put_last
  put_last-first = refl

  pub put_last-appended :
      (prev : ℕ) (d : Node)
      → m.nodes prev ≡ some d
      → prev ≢ null
      → m.nodes a ≡ none
      → put_last a k val h prev null m
        ≡ done true (record m {
          nodes =
              update
                (update m.nodes a
                  (some (record { key = k; val = val; next = null; is_active = 1 })))
                prev
                (some (record d { next = a }));
        })
  unfolding put_last
  put_last-appended prev d e z u =
      let nodes =
        update m.nodes a (some (record { key = k; val = val; next = null; is_active = 1 })) in
      rw (==_of_ne null prev (λ q. z (sym q))) (
        rw
          (change_lem prev (λ x. record x { next = a }) (record m { nodes = nodes }) d
            (update_ne m.nodes a (some (record { key = k; val = val; next = null; is_active = 1 }))
                prev (λ q. some-ne m.nodes prev a d e u (sym q))
              ∙ e))
          refl)
