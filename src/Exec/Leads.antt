-- ===== src/Exec/Leads.antt =====
-- Actions that lead from one predicate on the world to another, and what their values satisfy: the
-- rules for an action of which one part is not stood by the predicate that held before.
use open_neotrader.Base.{◌≡◌, refl, Bool, true, false, Option, none, some, if◌then◌else◌}
use open_neotrader.Exec.{
  Fault, Result, ok, err, Exec, pure, attempt, continue, ◌>>=◌, on_option, on_result, raise,
}
use open_neotrader.Exec.Keeps.{Keeps}

-- what holds of the value, if the action returns one
abbrev pub Yields : {R : Type 0} → (R → Type 0) → Result R → Type 0
Yields E (ok a) = E a
Yields E (err e) = Unit

-- The action keeps `P`, and from a world where `P` holds it returns only values that satisfy `E`.
pub record Gives {W R : Type 0} (P : W → Type 0) (E : R → Type 0) (run : Exec W R) : Type 0 where
  pub at : (w : W) → P w → P (run w).1
  pub value : (w : W) → P w → Yields E (run w).0

pub record Leads {W R : Type 0} (P Q : W → Type 0) (run : Exec W R) : Type 0 where
  pub at : (w : W) → P w → Q (run w).1

pub Yields-all : {R : Type 0} {E : R → Type 0} → ((a : R) → E a) → (r : Result R) → Yields E r
Yields-all h (ok a) = h a
Yields-all h (err e) = tt

module _ {W R : Type 0} {P : W → Type 0} {E : R → Type 0} where
  pub Gives-Keeps : (run : Exec W R) → Keeps P run → ((a : R) → E a) → Gives P E run
  Gives-Keeps run k h = record { at = k.at; value = λ w i. Yields-all h (run w).0 }

  pub Gives-pure : (a : R) → E a → Gives P E (pure a)
  unfolding pure
  Gives-pure a e = record { at = λ w i. i; value = λ w i. e }

  pub Gives-if :
      (test : Bool) (first second : Exec W R)
      → (test ≡ true → Gives P E first)
      → (test ≡ false → Gives P E second)
      → Gives P E (if test then first else second)
  Gives-if true first second g h = g refl
  Gives-if false first second g h = h refl

  pub Gives-attempt : (run : Exec W R) → Gives P E run → Gives P (Yields E) (attempt run)
  unfolding attempt
  Gives-attempt run g = record { at = g.at; value = g.value }

  pub Gives-raise : (e : Fault) → Gives P E (raise e)
  unfolding raise
  Gives-raise e = record { at = λ w i. i; value = λ w i. tt }

module _ {W R T : Type 0} {P : W → Type 0} {E : R → Type 0} where
  pub Gives-on_option :
      (found : Option T) (next : T → Exec W R) (otherwise : Exec W R)
      → ((a : T) → found ≡ some a → Gives P E (next a))
      → Gives P E otherwise
      → Gives P E (on_option found next otherwise)
  unfolding on_option
  Gives-on_option none next otherwise g h = h
  Gives-on_option (some a) next otherwise g h = g a refl

  pub Gives-on_result :
      (outcome : Result T) (next : T → Exec W R) (caught : Fault → Exec W R)
      → ((a : T) → Gives P E (next a))
      → ((e : Fault) → Gives P E (caught e))
      → Gives P E (on_result outcome next caught)
  unfolding on_result
  Gives-on_result (ok a) next caught g h = g a
  Gives-on_result (err e) next caught g h = h e

module _ {W R T : Type 0} {P : W → Type 0} {E : R → Type 0} {F : T → Type 0} where
  continues :
      (r : Result R) (next : R → Exec W T)
      → ((a : R) → E a → Gives P F (next a))
      → (w : W) → P w
      → Yields E r
      → P (continue r next w).1 × Yields F (continue r next w).0
  unfolding continue
  continues (ok a) next follows w i e = ((follows a e).at w i, (follows a e).value w i)
  continues (err x) next follows w i e = (i, tt)

  pub Gives-bind :
      (run : Exec W R) (next : R → Exec W T)
      → Gives P E run
      → ((a : R) → E a → Gives P F (next a))
      → Gives P F (run >>= next)
  unfolding ◌>>=◌
  Gives-bind run next g follows = record {
    at = λ w i. (continues (run w).0 next follows (run w).1 (g.at w i) (g.value w i)).0;
    value = λ w i. (continues (run w).0 next follows (run w).1 (g.at w i) (g.value w i)).1;
  }

module _ {W R : Type 0} {P Q : W → Type 0} where
  pub Leads-Keeps : (run : Exec W R) → ((w : W) → P w → Q w) → Keeps P run → Leads P Q run
  Leads-Keeps run sub k = record { at = λ w i. sub _ (k.at w i) }

  pub Leads-weaken :
      {Weak : W → Type 0} (run : Exec W R)
      → ((w : W) → Weak w → P w)
      → Leads P Q run
      → Leads Weak Q run
  Leads-weaken run sub k = record { at = λ w i. k.at w (sub w i) }

  pub Leads-attempt : (run : Exec W R) → Leads P Q run → Leads P Q (attempt run)
  unfolding attempt
  Leads-attempt run k = record { at = λ w i. k.at w i }

  pub Leads-if :
      (test : Bool) (first second : Exec W R)
      → (test ≡ true → Leads P Q first)
      → (test ≡ false → Leads P Q second)
      → Leads P Q (if test then first else second)
  Leads-if true first second l m = l refl
  Leads-if false first second l m = m refl

module _ {W R T : Type 0} {Q : W → Type 0} where
  ended :
      (r : Result R) (next : R → Exec W T)
      → ((a : R) → Keeps Q (next a))
      → (w : W) → Q w
      → Q (continue r next w).1
  unfolding continue
  ended (ok a) next follows w i = (follows a).at w i
  ended (err x) next follows w i = i

module _ {W R T : Type 0} {P Q : W → Type 0} where
  continued :
      {E : R → Type 0} (r : Result R) (next : R → Exec W T)
      → ((w : W) → P w → Q w)
      → ((a : R) → E a → Leads P Q (next a))
      → (w : W) → P w
      → Yields E r
      → Q (continue r next w).1
  unfolding continue
  continued (ok a) next sub follows w i e = (follows a e).at w i
  continued (err x) next sub follows w i e = sub w i

  -- a first part that keeps `P` and whose value is known to satisfy `E`
  pub Leads-given :
      {E : R → Type 0} (run : Exec W R) (next : R → Exec W T)
      → ((w : W) → P w → Q w)
      → Gives P E run
      → ((a : R) → E a → Leads P Q (next a))
      → Leads P Q (run >>= next)
  unfolding ◌>>=◌
  Leads-given run next sub g follows = record {
    at = λ w i. continued (run w).0 next sub follows (run w).1 (g.at w i) (g.value w i);
  }

  pub Leads-bind :
      (run : Exec W R) (next : R → Exec W T)
      → ((w : W) → P w → Q w)
      → Keeps P run
      → ((a : R) → Leads P Q (next a))
      → Leads P Q (run >>= next)
  Leads-bind run next sub k follows =
      Leads-given {E = λ _. Unit} run next sub (Gives-Keeps run k (λ _. tt)) (λ a _. follows a)

  -- a first part that leads to `Q`, and a rest that keeps it
  pub Leads-then :
      (run : Exec W R) (next : R → Exec W T)
      → Leads P Q run
      → ((a : R) → Keeps Q (next a))
      → Leads P Q (run >>= next)
  unfolding ◌>>=◌
  Leads-then run next l follows = record {
    at = λ w i. ended (run w).0 next follows (run w).1 (l.at w i);
  }

  pub Leads-on_option :
      (found : Option R) (next : R → Exec W T) (otherwise : Exec W T)
      → ((a : R) → Leads P Q (next a))
      → Leads P Q otherwise
      → Leads P Q (on_option found next otherwise)
  unfolding on_option
  Leads-on_option none next otherwise follows l = l
  Leads-on_option (some a) next otherwise follows l = follows a

  pub Leads-on_result :
      (outcome : Result R) (next : R → Exec W T) (caught : Fault → Exec W T)
      → ((a : R) → Leads P Q (next a))
      → ((e : Fault) → Leads P Q (caught e))
      → Leads P Q (on_result outcome next caught)
  unfolding on_result
  Leads-on_result (ok a) next caught follows l = follows a
  Leads-on_result (err e) next caught follows l = l e

pub ruleset leads_rules =
    (Leads-Keeps, Leads-attempt, Leads-if, Leads-bind, Leads-on_option, Leads-on_result)
