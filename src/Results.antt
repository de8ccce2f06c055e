-- ===== src/Results.antt =====
-- Functions that return or raise and change no state: how they are composed, and what is known when
-- such a composition has returned.
use prv_apt_mirror.Prelude.{◌≡◌, refl}
use prv_apt_mirror.Exec.{Result, ok, err}

module _ {ℓ κ} {A : Type ℓ} {B : Type κ} where
  abbrev pub bind : Result A → (A → Result B) → Result B
  bind (err e) next = err e
  bind (ok a) next = next a

  infixl 5 ◌>>=◌
  abbrev pub ◌>>=◌ : Result A → (A → Result B) → Result B
  r >>= next = bind r next

  pub bind-inv :
      (r : Result A) (next : A → Result B) {b : B}
      → bind r next ≡ ok b
      → (a : A) × (r ≡ ok a) × (next a ≡ ok b)
  bind-inv (err e) next h = cc
  bind-inv (ok a) next h = (a, refl, h)

module _ {κ} {B : Type κ} where
  infixl 5 ◌>>◌
  abbrev pub ◌>>◌ : Result (Unit {0}) → Result B → Result B
  test >> next = bind test (λ passed. next)

  pub ok-injective : {a b : B} → ok a ≡ ok b → a ≡ b
  ok-injective h = cc
