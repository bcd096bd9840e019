-- ===== src/Exec/Returns.antt =====
-- What an action returns, from any world: only the last part of it matters.
use open_neotrader.Base.{Bool, true, false, Option, none, some, if◌then◌else◌}
use open_neotrader.Exec.{
  Fault, Result, ok, err, Exec, pure, raise, continue, ◌>>=◌, on_option, on_result,
}
use open_neotrader.Exec.Leads.{Yields}

-- Wherever the action returns, its value satisfies `E`.
pub record Returns {W R : Type 0} (E : R → Type 0) (run : Exec W R) : Type 0 where
  pub value : (w : W) → Yields E (run w).0

module _ {W R : Type 0} {E : R → Type 0} where
  pub Returns-pure : (a : R) → E a → Returns {W = W} E (pure a)
  unfolding pure
  Returns-pure a e = record { value = λ w. e }

  pub Returns-raise : (fault : Fault) → Returns {W = W} E (raise fault)
  unfolding raise
  Returns-raise fault = record { value = λ w. tt }

  pub Returns-if :
      (test : Bool) (first second : Exec W R)
      → Returns E first
      → Returns E second
      → Returns E (if test then first else second)
  Returns-if true first second r s = r
  Returns-if false first second r s = s

Yields-weaken :
    {R : Type 0} {E F : R → Type 0} (r : Result R) → ((a : R) → E a → F a) → Yields E r → Yields F r
Yields-weaken (ok a) sub y = sub a y
Yields-weaken (err e) sub y = tt

pub Returns-weaken :
    {W R : Type 0} {E F : R → Type 0} (run : Exec W R)
    → ((a : R) → E a → F a)
    → Returns E run
    → Returns F run
Returns-weaken run sub r = record { value = λ w. Yields-weaken (run w).0 sub (r.value w) }

module _ {W R T : Type 0} {E : T → Type 0} where
  -- where what is known of the first part's value at one world is used by the rest
  pub Yields-bind :
      {F : R → Type 0} (r : Result R) (next : R → Exec W T) (w : W)
      → Yields F r
      → ((a : R) → F a → Returns E (next a))
      → Yields E (continue r next w).0
  unfolding continue
  Yields-bind (ok a) next w y follows = (follows a y).value w
  Yields-bind (err e) next w y follows = tt

  returned :
      (r : Result R) (next : R → Exec W T) (w : W)
      → ((a : R) → Returns E (next a))
      → Yields E (continue r next w).0
  unfolding continue
  returned (ok a) next w follows = (follows a).value w
  returned (err e) next w follows = tt

  pub Returns-bind :
      (run : Exec W R) (next : R → Exec W T)
      → ((a : R) → Returns E (next a))
      → Returns E (run >>= next)
  unfolding ◌>>=◌
  Returns-bind run next follows = record { value = λ w. returned (run w).0 next (run w).1 follows }

  pub Returns-given :
      {F : R → Type 0} (run : Exec W R) (next : R → Exec W T)
      → Returns F run
      → ((a : R) → F a → Returns E (next a))
      → Returns E (run >>= next)
  unfolding ◌>>=◌
  Returns-given run next known follows = record {
    value = λ w. Yields-bind (run w).0 next (run w).1 (known.value w) follows;
  }

  pub Returns-on_option :
      (found : Option R) (next : R → Exec W T) (otherwise : Exec W T)
      → ((a : R) → Returns E (next a))
      → Returns E otherwise
      → Returns E (on_option found next otherwise)
  unfolding on_option
  Returns-on_option none next otherwise r s = s
  Returns-on_option (some a) next otherwise r s = r a

  pub Returns-on_result :
      (outcome : Result R) (next : R → Exec W T) (caught : Fault → Exec W T)
      → ((a : R) → Returns E (next a))
      → ((e : Fault) → Returns E (caught e))
      → Returns E (on_result outcome next caught)
  unfolding on_result
  Returns-on_result (ok a) next caught r s = r a
  Returns-on_result (err e) next caught r s = s e

pub ruleset returns_rules =
    (Returns-raise, Returns-if, Returns-bind, Returns-on_option, Returns-on_result)
