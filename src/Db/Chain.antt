-- ===== src/Db/Chain.antt =====
-- What a chain of transaction steps that returns a value went through.
use selatpay.Prelude.{◌≡◌, refl, ap, ◌∙◌, Option, none, some}
use selatpay.Db.Tx.{Err, Result, ok, err, World, Tx, catch, rename, resume, or_fail, ◌>>=◌}

module _ {A B : Type 0} where
  -- The first step returned a value, from which the rest went on.
  pub bind_ok :
      (m : Tx A) (f : A → Tx B) (b : B) (w w' : World)
      → (m >>= f) w ≡ (ok b, w')
      → (a : A) × (v : World) × (m w ≡ (ok a, v)) × (f a v ≡ (ok b, w'))
  bind_ok m f b w w' e = go (m w) refl e
    where
      go :
          (x : Result A × World)
          → m w ≡ x
          → resume f x ≡ (ok b, w')
          → (a : A) × (v : World) × (m w ≡ (ok a, v)) × (f a v ≡ (ok b, w'))
      go (err x, v) h e = absurd (cc)
      go (ok a, v) h e = (a, v, h, e)

  pub bind_from :
      (m : Tx A) (f : A → Tx B) (a : A) (w v : World) → m w ≡ (ok a, v) → (m >>= f) w ≡ f a v
  bind_from m f a w v e = ap (resume f) e

module _ {A : Type 0} where
  pub catch_ok :
      (m : Tx A) (g : Err → Err) (a : A) (w v : World) → catch m g w ≡ (ok a, v) → m w ≡ (ok a, v)
  catch_ok m g a w v e = go (m w) refl e
    where
      go : (x : Result A × World) → m w ≡ x → rename g x ≡ (ok a, v) → m w ≡ (ok a, v)
      go (err x, u) h e = absurd (cc)
      go (ok b, u) h e = h ∙ e

  pub catch_from :
      (m : Tx A) (g : Err → Err) (a : A) (w v : World) → m w ≡ (ok a, v) → catch m g w ≡ (ok a, v)
  catch_from m g a w v e = ap (rename g) e

  -- A query that found a row.
  pub or_fail_ok :
      (o : Option A) (x : Err) (a : A) (w v : World)
      → or_fail o x w ≡ (ok a, v)
      → (o ≡ some a) × (v ≡ w)
  or_fail_ok none x a w v e = absurd (cc)
  or_fail_ok (some b) x a w v e = (cc, cc)
