-- ===== src/Base/Rc.antt =====
-- The return codes NGX_OK, NGX_DECLINED and NGX_ERROR. The out-parameters of a call are read only
-- when it returns NGX_OK, so they are the value that `ok` carries.
use mathlib.Core.Path.{◌≡◌, refl}
use mathlib.Core.Logic.{◌≢◌, ◌↔◌, ◌⊎◌, inl, inr}
use native.Mathlib.Omega.{arith}
use nginx_auth_webauthn.Base.Tests.{if◌then◌else◌}
use mathlib.Core.Bool.{Bool, true, false}
use mathlib.Core.Option.{Option, none, some}

pub data Rc {ℓ} (A : Type ℓ) : Type ℓ where
  ok : A → Rc A
  declined : Rc A
  error : Rc A

infixl 5 ◌>>=◌ ◌>>◌
abbrev pub ◌>>=◌ {ℓ κ} : {A : Type ℓ} {B : Type κ} → Rc A → (A → Rc B) → Rc B
ok a >>= f = f a
declined >>= f = declined
error >>= f = error

abbrev pub ◌>>◌ {ℓ} : {B : Type ℓ} → Rc (Unit {0}) → Rc B → Rc B
m >> k = m >>= λ _. k

-- `if (!test) return rc;`
abbrev pub require : Bool → Rc (Unit {0}) → Rc (Unit {0})
require true rc = ok tt
require false rc = rc

-- A NULL result that ends the call with `rc`.
abbrev pub some_or {ℓ} : {A : Type ℓ} → Option A → Rc A → Rc A
some_or none rc = rc
some_or (some a) rc = ok a

-- Inversion of a result: the guards that it passed, and the steps that it took.
module _ {ℓ} {A : Type ℓ} {a : A} where
  pub declined_guard :
      (b : Bool) (r : Rc A) → (if b then declined else r) ≡ ok a → (b ≡ false) × (r ≡ ok a)
  declined_guard true r h = cc
  declined_guard false r h = (refl, h)

  pub error_guard :
      (b : Bool) (r : Rc A) → (if b then error else r) ≡ ok a → (b ≡ false) × (r ≡ ok a)
  error_guard true r h = cc
  error_guard false r h = (refl, h)

  pub if_cases :
      (b : Bool) (x y : Rc A)
      → (if b then x else y) ≡ ok a
      → ((b ≡ true) × (x ≡ ok a)) ⊎ ((b ≡ false) × (y ≡ ok a))
  if_cases true x y h = inl (refl, h)
  if_cases false x y h = inr (refl, h)

  pub require_passed :
      (b : Bool) (e : Rc (Unit {0})) (r : Rc A)
      → e ≢ ok tt
      → (require b e >> r) ≡ ok a
      → (b ≡ true) × (r ≡ ok a)
  require_passed true e r ne h = (refl, h)
  require_passed false (ok u) r ne h = absurd (ne refl)
  require_passed false declined r ne h = cc
  require_passed false error r ne h = cc

  pub bind_ok {κ} :
      {B : Type κ} (m : Rc B) (f : B → Rc A)
      → (m >>= f) ≡ ok a
      → (b : B) × (m ≡ ok b) × (f b ≡ ok a)
  bind_ok (ok b) f h = (b, refl, h)
  bind_ok declined f h = cc
  bind_ok error f h = cc

  pub some_or_ok {κ} :
      {B : Type κ} (o : Option B) (e : Rc B) (f : B → Rc A)
      → ((b : B) → e ≢ ok b)
      → (some_or o e >>= f) ≡ ok a
      → (b : B) × (o ≡ some b) × (f b ≡ ok a)
  some_or_ok (some b) e f ne h = (b, refl, h)
  some_or_ok none (ok b) f ne h = absurd (ne b refl)
  some_or_ok none declined f ne h = cc
  some_or_ok none error f ne h = cc

pub declined-ne-ok {ℓ} : {A : Type ℓ} (a : A) → declined ≢ ok a
declined-ne-ok a h = cc

pub error-ne-ok {ℓ} : {A : Type ℓ} (a : A) → error ≢ ok a
error-ne-ok a h = cc

pub some_or-declined {ℓ} :
    {A : Type ℓ} (o : Option A) (a : A) → (some_or o declined ≡ ok a) ↔ (o ≡ some a)
some_or-declined none a = (λ h. cc, λ h. cc)
some_or-declined (some b) a = ground arith

pub ok-injective {ℓ} : {A : Type ℓ} {a b : A} → ok a ≡ ok b → a ≡ b
ok-injective h = cc

pub some_or-error {ℓ} :
    {A : Type ℓ} (o : Option A) (a : A) → (some_or o error ≡ ok a) ↔ (o ≡ some a)
some_or-error none a = (λ h. cc, λ h. cc)
some_or-error (some b) a = ground arith
