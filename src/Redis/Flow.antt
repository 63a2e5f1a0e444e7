-- ===== src/Redis/Flow.antt =====
-- A call that succeeds: the steps that it took, each on the state that the one before it left.
use nginx_auth_webauthn.Base.{◌≡◌, refl}
use nginx_auth_webauthn.Base.Rc.{Rc, ok, declined, error}
use nginx_auth_webauthn.Redis.{Client, Exec, after, ◌>>=◌}

module _ {S A B : Type 0} where
  after_ok :
      (r : Rc A) (f : A → Exec S B) (c : Client S) {b : B}
      → (after r f c).0 ≡ ok b
      → (a : A) × (r ≡ ok a) × ((f a c).0 ≡ ok b) × ((after r f c).1 ≡ (f a c).1)
  after_ok (ok a) f c h = (a, refl, h, refl)
  after_ok declined f c h = cc
  after_ok error f c h = cc

  pub exec_ok :
      (m : Exec S A) (f : A → Exec S B) (c : Client S) {b : B}
      → ((m >>= f) c).0 ≡ ok b
      → (a : A) × ((m c).0 ≡ ok a) × ((f a (m c).1).0 ≡ ok b) × (((m >>= f) c).1 ≡ (f a (m c).1).1)
  exec_ok m f c h = after_ok (m c).0 f (m c).1 h
