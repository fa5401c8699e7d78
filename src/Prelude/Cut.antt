-- ===== src/Prelude/Cut.antt =====
-- Texts around the last occurrence of a byte.
use Prim.Native.Nat.{ℕ}
use mathlib.Core.Path.{◌≡◌, refl, sym, subst}
use mathlib.Core.Logic.{◌≢◌}
use mathlib.Core.List.{[], ◌∷◌, ◌++◌}
use hpcc.Prelude.Lists.{All}
use hpcc.Prelude.Text.{Bytes}

abbrev pub Without : ℕ → Bytes → Type 0
Without b s = All (λ c. c ≢ b) s

Without-suffix : (b : ℕ) (s t : Bytes) → ¬ Without b (s ++ (b ∷ t))
Without-suffix b [] t h = h.0 refl
Without-suffix b (c ∷ s) t h = Without-suffix b s t h.1

-- The last occurrence splits a text in one way.
pub last_injective :
    (b : ℕ) (s t d e : Bytes)
    → Without b d
    → Without b e
    → s ++ (b ∷ d) ≡ t ++ (b ∷ e)
    → (s ≡ t) × (d ≡ e)
last_injective b [] [] d e u v h = (refl, cc)
last_injective b [] (c ∷ t) d e u v h =
    let tails : d ≡ t ++ (b ∷ e) = cc in absurd (Without-suffix b t e (subst (Without b) tails u))
last_injective b (c ∷ s) [] d e u v h =
    let tails : s ++ (b ∷ d) ≡ e = cc in
    absurd (Without-suffix b s d (subst (Without b) (sym tails) v))
last_injective b (c ∷ s) (x ∷ t) d e u v h =
    let heads : c ≡ x = cc in let (front, back) = last_injective b s t d e u v (cc) in (cc, back)
