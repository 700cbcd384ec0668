-- ===== src/Deploy/Exec.antt =====
-- Code that changes a state, may raise, and keeps what it changed when it raises.
use doris_ducklake.Prelude.{Bool, Error, Result, err, if◌then◌else◌, ok}

abbrev pub Exec {ℓ κ} : Type ℓ → Type κ → Type (ℓ ⊔ κ)
Exec S A = S → S × Result A

module _ {ℓ κ} {S : Type ℓ} {A : Type κ} where
  -- A computation that reads and writes nothing.
  unfoldable pub pure : Result A → Exec S A
  pure r s = (s, r)

  abbrev pub return : A → Exec S A
  return a = pure (ok a)

  unfoldable pub gets : (S → A) → Exec S A
  gets f s = (s, ok (f s))

  -- `except … as error`: what is raised and `caught` goes to the handler.
  abbrev pub handle : S × Result A → (Error → Bool) → (Error → Exec S A) → S × Result A
  handle (s, ok a) caught handler = (s, ok a)
  handle (s, err e) caught handler = if caught e then handler e s else (s, err e)

unfoldable pub modify {ℓ} : {S : Type ℓ} → (S → S) → Exec S (Unit {0})
modify f s = (f s, ok tt)

module _ {ℓ κ μ} {S : Type ℓ} {A : Type κ} {B : Type μ} where
  abbrev pub continue : S × Result A → (A → Exec S B) → S × Result B
  continue (s, err e) k = (s, err e)
  continue (s, ok a) k = k a s

  infixl 5 ◌>>=◌
  unfoldable pub ◌>>=◌ : Exec S A → (A → Exec S B) → Exec S B
  m >>= k = λ s. continue (m s) k

  infixl 5 ◌>>◌
  abbrev pub ◌>>◌ : Exec S A → Exec S B → Exec S B
  m >> k = m >>= (λ _. k)

-- `try: … finally: last`: what `last` raises stands in place of what the body did.
module _ {ℓ κ} {S : Type ℓ} {A : Type κ} where
  abbrev pub outcome_after : Result A → S × Result (Unit {0}) → S × Result A
  outcome_after r (s, err e) = (s, err e)
  outcome_after r (s, ok _) = (s, r)

  abbrev pub finally : Exec S A → Exec S (Unit {0}) → Exec S A
  finally m last s = let (s', r) = m s in outcome_after r (last s')
