-- ===== src/Store/Calls/Costs.antt =====
-- How many calls an action makes to the database, the clock and the broker, at most.
use open_neotrader.Base.{
  ℕ, ◌+◌, ◌≤◌, ◌≡◌, refl, Bool, true, false, Option, none, some, List, arith, if◌then◌else◌,
}
use open_neotrader.Exec.{
  Fault, Result, ok, err, pure, raise, gets, modify, quietly, attempt, skip, continue, ◌>>=◌,
  on_option, on_result,
}
use open_neotrader.Store.Rows.{Status, RealOrder, TradeIntent}
use open_neotrader.Store.World.{World, Db, Action, Done}
use open_neotrader.Store.Calls.{
  now, db_call, read_db, change_orders, update_order, update_order_if, update_intent, settle,
  transaction, get_order_by_client_id, get_order_status,
}

-- From any world the action makes `n` calls at most.
pub record Costs {R : Type 0} (n : ℕ) (run : Action R) : Type 0 where
  pub at : (w : World) → (run w).1.calls_made ≤ n + w.calls_made

settled :
    {R : Type 0} (r : Result R) (before : Db) (v : World) (m : ℕ)
    → v.calls_made ≤ m
    → (settle r before v).1.calls_made ≤ m
settled (ok a) before v m h = h
settled (err e) before v m h = h

module _ {n : ℕ} {R : Type 0} where
  pub Costs-pure : (a : R) → Costs n (pure a)
  unfolding pure
  Costs-pure a = record { at = λ w. omega arith }

  pub Costs-raise : (e : Fault) → Costs {R = R} n (raise e)
  unfolding raise
  Costs-raise e = record { at = λ w. omega arith }

  pub Costs-gets : (f : World → R) → Costs n (gets f)
  unfolding gets
  Costs-gets f = record { at = λ w. omega arith }

  pub Costs-le : {m : ℕ} (run : Action R) → m ≤ n → Costs m run → Costs n run
  Costs-le run h c = record { at = λ w. omega (arith, c.at w, h) }

  pub Costs-attempt : (run : Action R) → Costs n run → Costs n (attempt run)
  unfolding attempt
  Costs-attempt run c = record { at = λ w. c.at w }

  pub Costs-if :
      (b : Bool) (first second : Action R)
      → Costs n first
      → Costs n second
      → Costs n (if b then first else second)
  Costs-if true first second c d = c
  Costs-if false first second c d = d

  pub Costs-transaction : (run : Action R) → Costs n run → Costs n (transaction run)
  unfolding transaction
  Costs-transaction run c = record { at = λ w. settled (run w).0 w.db (run w).1 _ (c.at w) }

module _ {n : ℕ} where
  pub Costs-skip : Costs n skip
  unfolding skip
  Costs-skip = record { at = λ w. omega arith }

  Costs-modify :
      (f : World → World) → ((w : World) → (f w).calls_made ≡ w.calls_made) → Costs n (modify f)
  unfolding modify
  Costs-modify f same = record { at = λ w. omega (arith, same w) }

  pub Costs-quietly : (run : Action Done) → Costs n run → Costs n (quietly run)
  unfolding quietly
  Costs-quietly run c = record { at = λ w. c.at w }

module _ {R T : Type 0} where
  continued :
      (m n : ℕ) (r : Result R) (next : R → Action T) (w v : World)
      → v.calls_made ≤ m + w.calls_made
      → ((a : R) → Costs n (next a))
      → (continue r next v).1.calls_made ≤ (m + n) + w.calls_made
  unfolding continue
  continued m n (ok a) next w v c follows = omega (arith, (follows a).at v, c)
  continued m n (err e) next w v c follows = omega (arith, c)

  pub Costs-bind :
      {m n : ℕ} (run : Action R) (next : R → Action T)
      → Costs m run
      → ((a : R) → Costs n (next a))
      → Costs (m + n) (run >>= next)
  unfolding ◌>>=◌
  Costs-bind run next c follows = record {
    at = λ w. continued _ _ (run w).0 next w (run w).1 (c.at w) follows;
  }

module _ {n : ℕ} {R T : Type 0} where
  pub Costs-on_option :
      (found : Option R) (next : R → Action T) (otherwise : Action T)
      → ((a : R) → Costs n (next a))
      → Costs n otherwise
      → Costs n (on_option found next otherwise)
  unfolding on_option
  Costs-on_option none next otherwise c d = d
  Costs-on_option (some a) next otherwise c d = c a

  pub Costs-on_result :
      (outcome : Result R) (next : R → Action T) (caught : Fault → Action T)
      → ((a : R) → Costs n (next a))
      → ((e : Fault) → Costs n (caught e))
      → Costs n (on_result outcome next caught)
  unfolding on_result
  Costs-on_result (ok a) next caught c d = c a
  Costs-on_result (err e) next caught c d = d e

pub Costs-now : Costs 1 now
unfolding now
Costs-now = record { at = λ w. omega arith }

pub Costs-db_call : Costs 1 db_call
unfolding db_call
Costs-db_call = record { at = λ w. omega arith }

pub Costs-get_order_by_client_id : (b c : ℕ) → Costs 1 (get_order_by_client_id b c)
unfolding get_order_by_client_id
Costs-get_order_by_client_id b c = record { at = λ w. omega arith }

pub Costs-get_order_status : (b o : ℕ) → Costs 1 (get_order_status b o)
unfolding get_order_status
Costs-get_order_status b o = record { at = λ w. omega arith }

Costs-change_orders : (f : List RealOrder → List RealOrder) → Costs 0 (change_orders f)
unfolding change_orders
Costs-change_orders f = record { at = λ w. ground arith }

pub Costs-read_db : {A : Type 0} (f : Db → A) → Costs 1 (read_db f)
unfolding read_db
Costs-read_db f = Costs-bind _ _ Costs-db_call (λ _. Costs-gets {n = 0} _)

pub Costs-update_order : (id : ℕ) (f : RealOrder → RealOrder) → Costs 1 (update_order id f)
unfolding update_order
Costs-update_order id f = Costs-bind _ _ Costs-db_call (λ _.
    Costs-bind {m = 0} {n = 0} _ _ (Costs-gets _) (λ rows.
      Costs-on_option _ _ _
        (λ r. Costs-bind {m = 0} {n = 0} _ _ (Costs-change_orders _) (λ _. Costs-pure _))
        (Costs-raise _)))

pub Costs-update_order_if :
    (id : ℕ) (status : Status) (f : RealOrder → RealOrder) → Costs 1 (update_order_if id status f)
unfolding update_order_if
Costs-update_order_if id status f = Costs-bind _ _ Costs-db_call (λ _.
    Costs-bind {m = 0} {n = 0} _ _ (Costs-gets _)
      (λ rows. Costs-bind {m = 0} {n = 0} _ _ (Costs-change_orders _) (λ _. Costs-pure _)))

pub Costs-update_intent : (id : ℕ) (f : TradeIntent → TradeIntent) → Costs 1 (update_intent id f)
unfolding update_intent
Costs-update_intent id f = Costs-bind _ _ Costs-db_call (λ _.
    Costs-bind {m = 0} {n = 0} _ _ (Costs-gets _)
      (λ rows. Costs-if _ _ _ (Costs-modify _ (λ w. refl)) (Costs-raise _)))
