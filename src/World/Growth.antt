-- ===== src/World/Growth.antt =====
-- The run of the agent only grows: what has happened stays, and every stage adds its calls to it.
use devplat_agent.Base.{◌≡◌, refl, ap, List, [], ◌∷◌, ◌++◌, arith}
use devplat_agent.World.{World, Event}

-- The second run is the first one with more events on top.
pub data Later (w : World) : World → Type 0 where
  same : Later w w
  more : {v : World} (e : Event) → Later w v → Later w (e ∷ v)

pub Later-trans : {u v w : World} → Later u v → Later v w → Later u w
Later-trans l same = l
Later-trans l (more e k) = more e (Later-trans l k)

pub Later-below : {e : Event} {w v : World} → Later (e ∷ w) v → Later w v
Later-below l = Later-trans (more _ same) l

-- The events of a later run that an earlier one has not.
pub Later-suffix : {w v : World} → Later w v → (es : List Event) × (v ≡ es ++ w)
Later-suffix same = ([], refl)
Later-suffix (more e l) = let (es, p) = Later-suffix l in (e ∷ es, ap (λ (v : World). e ∷ v) p)

-- A stage that only adds to the run.
abbrev pub Grows {ℓ} : {A : Type ℓ} → (World → A × World) → Type 0
Grows m = (w : World) → Later w (m w).1

-- Two stages, one after the other.
pub Grows-bind {ℓ κ} :
    {A : Type ℓ} {B : Type κ} (m : World → A × World) (f : A → World → B × World) (w : World)
    → Grows m
    → ((a : A) → Grows (f a))
    → Later w (f (m w).0 (m w).1).1
Grows-bind m f w g k = Later-trans (g w) (k (m w).0 (m w).1)

pub ruleset growth = (arith, same, more, Later-trans)
