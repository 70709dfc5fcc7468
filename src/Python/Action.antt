-- ===== src/Python/Action.antt =====
-- Steps of a method: a call that may raise, on an object or a world that it changes.
use iox2_jsonrpc.Base.{if◌then◌else◌}
use iox2_jsonrpc.Python.Outcome.{Exception, Outcome, Action, returned, raised, IfReturned}

module _ {S A : Type 0} where
  abbrev pub pure : A → Action S A
  pure a s = (returned a, s)

  abbrev pub raise : Exception → Action S A
  raise e s = (raised e, s)

  abbrev pub lift : Outcome A → Action S A
  lift o s = (o, s)

  -- `except Exception` with a handler.
  abbrev pub except : (Exception → Action S A) → Outcome A × S → Outcome A × S
  except handler (returned a, s) = (returned a, s)
  except handler (raised e, s) = if e.is_exception then handler e s else (raised e, s)

module _ {S A B : Type 0} where
  abbrev pub continue : Outcome A → (A → Action S B) → Action S B
  continue (returned a) f s = f a s
  continue (raised e) f s = (raised e, s)

  infixl 5 ◌>>=◌ ◌>>◌
  abbrev pub ◌>>=◌ : Action S A → (A → Action S B) → Action S B
  ◌>>=◌ m f s = let (r, s') = m s in continue r f s'

  abbrev pub ◌>>◌ : Action S A → Action S B → Action S B
  m >> n = m >>= λ _. n

  continue-IfReturned {κ} :
      (P : B → Type κ) (o : Outcome A) (f : A → Action S B) (s : S)
      → ((a : A) (s' : S) → IfReturned P (f a s').0)
      → IfReturned P (continue o f s).0
  continue-IfReturned P (returned a) f s h = h a s
  continue-IfReturned P (raised e) f s h = tt

  -- What holds of every result of the second step holds of the two steps' result.
  pub >>=-IfReturned {κ} :
      (P : B → Type κ) (m : Action S A) (f : A → Action S B)
      → ((a : A) (s' : S) → IfReturned P (f a s').0)
      → (s : S) → IfReturned P ((m >>= f) s).0
  >>=-IfReturned P m f h s = continue-IfReturned P (m s).0 f (m s).1 h

  after-IfReturned {κ κ'} :
      (Q : A → Type κ) (P : B → Type κ') (o : Outcome A) (f : A → Action S B) (s : S)
      → IfReturned Q o
      → ((a : A) (s' : S) → Q a → IfReturned P (f a s').0)
      → IfReturned P (continue o f s).0
  after-IfReturned Q P (returned a) f s h k = k a s h
  after-IfReturned Q P (raised e) f s h k = tt

  -- The second step may use what holds of every result of the first.
  pub >>=-IfReturned-after {κ κ'} :
      (Q : A → Type κ) (P : B → Type κ') (m : Action S A) (f : A → Action S B)
      → ((s : S) → IfReturned Q (m s).0)
      → ((a : A) (s : S) → Q a → IfReturned P (f a s).0)
      → (s : S) → IfReturned P ((m >>= f) s).0
  >>=-IfReturned-after Q P m f h k s = after-IfReturned Q P (m s).0 f (m s).1 (h s) k
