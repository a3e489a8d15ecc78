-- ===== src/Base/Exec.antt =====
-- Asynchronous functions that change a state and may throw. What was written before a throw stays.

pub data Outcome {ℓ} (E A : Type ℓ) : Type ℓ where
  done : A → Outcome E A
  thrown : E → Outcome E A

abbrev pub Exec {ℓ} : Type ℓ → Type ℓ → Type ℓ → Type ℓ
Exec E S A = S → Outcome E A × S

module _ {ℓ} {E S A : Type ℓ} where
  unfoldable pub pure : A → Exec E S A
  pure a s = (done a, s)

  -- `throw e`
  unfoldable pub throw : E → Exec E S A
  throw e s = (thrown e, s)

  unfoldable pub gets : (S → A) → Exec E S A
  gets f s = (done (f s), s)

  abbrev recover : Outcome E A → (E → Exec E S A) → Exec E S A
  recover (done a) handler s = (done a, s)
  recover (thrown e) handler s = handler e s

  -- `try { body } catch (e) { handler e }`
  unfoldable pub try_catch : Exec E S A → (E → Exec E S A) → Exec E S A
  try_catch body handler s = let (r, s') = body s in recover r handler s'

module _ {ℓ} {E S A B : Type ℓ} where
  abbrev continue : Outcome E A → (A → Exec E S B) → Exec E S B
  continue (done a) f s = f a s
  continue (thrown e) f s = (thrown e, s)

  infixl 10 ◌>>=◌ ◌>>◌
  unfoldable pub ◌>>=◌ : Exec E S A → (A → Exec E S B) → Exec E S B
  unfolding pure throw gets try_catch
  ◌>>=◌ m f s = let (r, s') = m s in continue r f s'

  abbrev pub ◌>>◌ : Exec E S A → Exec E S B → Exec E S B
  m >> n = m >>= λ _. n

module _ {ℓ} {E S : Type ℓ} where
  unfoldable pub modify : (S → S) → Exec E S (Unit {ℓ})
  modify f s = (done tt, f s)

-- The action on a part of the state.
module _ {ℓ} {E S T A : Type ℓ} where
  unfoldable pub on_part : (T → S) → (S → T → T) → Exec E S A → Exec E T A
  on_part get put m t = let (r, s) = m (get t) in (r, put s t)
