-- ===== src/Exec/Keeps.antt =====
-- Which predicates on the world an action leaves true: a rule for each combinator of `Exec`.
use open_neotrader.Base.{Bool, true, false, Option, none, some, List, [], ◌∷◌, if◌then◌else◌}
use open_neotrader.Exec.{
  Fault, Result, ok, err, Exec, pure, raise, gets, attempt, ensuring, continue, ◌>>=◌, on_option,
  on_result, modify, skip, quietly, for_each,
}

-- Wherever `Inv` holds before `run`, it holds after, even if `run` throws.
pub record Keeps {W R : Type 0} (Inv : W → Type 0) (run : Exec W R) : Type 0 where
  pub at : (w : W) → Inv w → Inv (run w).1

-- The actions that leave the world as it is.
module _ {W R : Type 0} {Inv : W → Type 0} where
  pub Keeps-gets : (read : W → R) → Keeps Inv (gets read)
  unfolding gets
  Keeps-gets read = record { at = λ w inv. inv }

  pub Keeps-raise : (fault : Fault) → Keeps Inv (raise {S = W} {A = R} fault)
  unfolding raise
  Keeps-raise fault = record { at = λ w inv. inv }

  pub Keeps-pure : (result : R) → Keeps Inv (pure {S = W} result)
  unfolding pure
  Keeps-pure result = record { at = λ w inv. inv }

module _ {W : Type 0} {Inv : W → Type 0} where
  pub Keeps-skip : Keeps Inv (skip {S = W})
  unfolding skip
  Keeps-skip = record { at = λ w inv. inv }

  pub Keeps-modify : (write : W → W) → ((w : W) → Inv w → Inv (write w)) → Keeps Inv (modify write)
  unfolding modify
  Keeps-modify write kept = record { at = kept }

  pub Keeps-quietly : (run : Exec W (Unit {0})) → Keeps Inv run → Keeps Inv (quietly run)
  unfolding quietly
  Keeps-quietly run kept = record { at = λ w inv. kept.at w inv }

-- `try`, `finally` and the two branches of a test.
module _ {W R : Type 0} {Inv : W → Type 0} where
  pub Keeps-attempt : (run : Exec W R) → Keeps Inv run → Keeps Inv (attempt run)
  unfolding attempt
  Keeps-attempt run kept = record { at = λ w inv. kept.at w inv }

  pub Keeps-ensuring :
      (run : Exec W R) (last : W → W)
      → Keeps Inv run
      → ((w : W) → Inv w → Inv (last w))
      → Keeps Inv (ensuring run last)
  unfolding ensuring
  Keeps-ensuring run last kept ended = record { at = λ w inv. ended (run w).1 (kept.at w inv) }

  pub Keeps-if :
      (test : Bool) (first second : Exec W R)
      → Keeps Inv first
      → Keeps Inv second
      → Keeps Inv (if test then first else second)
  Keeps-if true first second in_first in_second = in_first
  Keeps-if false first second in_first in_second = in_second

-- An action and what follows it.
module _ {W R T : Type 0} {Inv : W → Type 0} where
  Keeps-continue :
      (outcome : Result R) (next : R → Exec W T)
      → ((value : R) → Keeps Inv (next value))
      → (w : W) → Inv w
      → Inv (continue outcome next w).1
  unfolding continue
  Keeps-continue (ok value) next follows w inv = (follows value).at w inv
  Keeps-continue (err fault) next follows w inv = inv

  pub Keeps-bind :
      (run : Exec W R) (next : R → Exec W T)
      → Keeps Inv run
      → ((value : R) → Keeps Inv (next value))
      → Keeps Inv (run >>= next)
  unfolding ◌>>=◌
  Keeps-bind run next kept follows = record {
    at = λ w inv. Keeps-continue (run w).0 next follows (run w).1 (kept.at w inv);
  }

  pub Keeps-on_option :
      (found : Option R) (next : R → Exec W T) (otherwise : Exec W T)
      → ((value : R) → Keeps Inv (next value))
      → Keeps Inv otherwise
      → Keeps Inv (on_option found next otherwise)
  unfolding on_option
  Keeps-on_option none next otherwise follows kept = kept
  Keeps-on_option (some value) next otherwise follows kept = follows value

  pub Keeps-on_result :
      (outcome : Result R) (next : R → Exec W T) (caught : Fault → Exec W T)
      → ((value : R) → Keeps Inv (next value))
      → ((fault : Fault) → Keeps Inv (caught fault))
      → Keeps Inv (on_result outcome next caught)
  unfolding on_result
  Keeps-on_result (ok value) next caught follows handles = follows value
  Keeps-on_result (err fault) next caught follows handles = handles fault

module _ {W R : Type 0} {Inv : W → Type 0} where
  pub Keeps-for_each :
      (rows : List R) (visit : R → Exec W (Unit {0}))
      → ((row : R) → Keeps Inv (visit row))
      → Keeps Inv (for_each rows visit)
  unfolding for_each skip
  Keeps-for_each [] visit kept = record { at = λ w inv. inv }
  Keeps-for_each (row ∷ rows) visit kept =
      Keeps-bind (visit row) (λ _. for_each rows visit) (kept row)
        (λ _. Keeps-for_each rows visit kept)

pub ruleset keeps_rules = (
  Keeps-skip, Keeps-modify, Keeps-quietly, Keeps-attempt, Keeps-ensuring, Keeps-if, Keeps-gets,
  Keeps-raise, Keeps-pure, Keeps-bind, Keeps-on_option, Keeps-on_result, Keeps-for_each,
)
