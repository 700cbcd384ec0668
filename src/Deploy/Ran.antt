-- ===== src/Deploy/Ran.antt =====
-- What a run that returned has gone through, step by step.
use doris_ducklake.Prelude.{Result, ap, err, ok, ok_injective, refl, ◌≡◌}
use doris_ducklake.Deploy.Exec.{Exec, continue, gets, pure, ◌>>=◌}

module _ {ℓ κ μ} {S : Type ℓ} {A : Type κ} {B : Type μ} where
  continue-ok :
      (p : S × Result A) (k : A → Exec S B) {u : S} {b : B}
      → continue p k ≡ (u, ok b)
      → (t : S) × (a : A) × (p ≡ (t, ok a)) × (k a t ≡ (u, ok b))
  continue-ok (t, err raised) k h = cc
  continue-ok (t, ok a) k h = (t, a, refl, h)

  pub bind-ok :
      (m : Exec S A) (k : A → Exec S B) (s : S) {u : S} {b : B}
      → (m >>= k) s ≡ (u, ok b)
      → (t : S) × (a : A) × (m s ≡ (t, ok a)) × (k a t ≡ (u, ok b))
  unfolding ◌>>=◌
  bind-ok m k s h = continue-ok (m s) k h

module _ {ℓ κ μ} {S : Type ℓ} {A : Type κ} {B : Type μ} where
  -- The same step forwards.
  pub bind-run :
      (m : Exec S A) (k : A → Exec S B) (s : S) {t : S} {a : A}
      → m s ≡ (t, ok a)
      → (m >>= k) s ≡ k a t
  unfolding ◌>>=◌
  bind-run m k s h = ap (λ p. continue p k) h

module _ {ℓ κ} {S : Type ℓ} {A : Type κ} where
  pub pure-ok : (r : Result A) (s : S) {t : S} {a : A} → pure r s ≡ (t, ok a) → (s ≡ t) × (r ≡ ok a)
  unfolding pure
  pure-ok r s h = (ap (λ x. x.0) h, ap (λ x. x.1) h)

  pub gets-ok : (f : S → A) (s : S) {t : S} {a : A} → gets f s ≡ (t, ok a) → (s ≡ t) × (f s ≡ a)
  unfolding gets
  gets-ok f s h = (ap (λ x. x.0) h, ok_injective (ap (λ x. x.1) h))
