-- ===== src/Exec.antt =====
-- Methods that mutate the world and may throw. What was written before a throw stays written, so
-- the state comes back beside the fault too. `attempt` is `try`/`catch`: it hands the outcome on.
pub mod Keeps
pub mod Leads
pub mod Returns
use open_neotrader.Base.{
  ℕ, String, Bool, true, false, Option, none, some, List, [], ◌∷◌, if◌then◌else◌,
}

-- What a call throws: a database failure, Prisma's P2002 and P2025, an error of the broker's
-- gateway with its text, or an error that the code itself constructs.
pub data Fault : Type 0 where
  database unique_violation record_not_found position_not_reported : Fault
  intent_not_found intent_not_pending invalid_action invalid_confidence : Fault
  invalid_interval cycle_in_progress type_error : Fault
  gateway : String → Fault

pub data Result {ℓ} (A : Type ℓ) : Type ℓ where
  ok : A → Result A
  err : Fault → Result A

abbrev pub Exec : Type 0 → Type 0 → Type 0
Exec S A = S → Result A × S

module _ {S A : Type 0} where
  unfoldable pub pure : A → Exec S A
  pure a s = (ok a, s)

  unfoldable pub raise : Fault → Exec S A
  raise e s = (err e, s)

  unfoldable pub gets : (S → A) → Exec S A
  gets f s = (ok (f s), s)

  -- `try { … } catch (err) { … }`, the outcome being examined by what follows
  unfoldable pub attempt : Exec S A → Exec S (Result A)
  attempt m s = (ok (m s).0, (m s).1)

  -- `try { m } finally { last }`
  unfoldable pub ensuring : Exec S A → (S → S) → Exec S A
  ensuring m last s = ((m s).0, last (m s).1)

module _ {S A B : Type 0} where
  unfoldable pub continue : Result A → (A → Exec S B) → Exec S B
  continue (ok a) f s = f a s
  continue (err e) f s = (err e, s)

  -- the branches on an option and on an outcome
  unfoldable pub on_option : Option A → (A → Exec S B) → Exec S B → Exec S B
  on_option none f m = m
  on_option (some a) f m = f a

  unfoldable pub on_result : Result A → (A → Exec S B) → (Fault → Exec S B) → Exec S B
  on_result (ok a) f g = f a
  on_result (err e) f g = g e

module _ {S : Type 0} where
  unfoldable pub modify : (S → S) → Exec S (Unit {0})
  modify f s = (ok tt, f s)

  unfoldable pub skip : Exec S (Unit {0})
  skip s = (ok tt, s)

  -- a call whose failure is logged and otherwise ignored
  unfoldable pub quietly : Exec S (Unit {0}) → Exec S (Unit {0})
  quietly m s = (ok tt, (m s).1)

module _ {S A B : Type 0} where
  infixl 5 ◌>>=◌ ◌>>◌
  unfoldable pub ◌>>=◌ : Exec S A → (A → Exec S B) → Exec S B
  unfolding pure raise gets attempt continue on_option on_result modify skip quietly ensuring
  ◌>>=◌ m f s = continue (m s).0 f (m s).1

  abbrev pub ◌>>◌ : Exec S A → Exec S B → Exec S B
  m >> n = m >>= λ _. n

-- `for (const x of xs) { … }`
module _ {S A : Type 0} where
  unfoldable pub for_each : List A → (A → Exec S (Unit {0})) → Exec S (Unit {0})
  unfolding ◌>>=◌
  for_each [] f = skip
  for_each (x ∷ xs) f = f x >> for_each xs f
