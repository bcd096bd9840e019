-- ===== src/Store/Index.antt =====
-- The uniqueness that the database enforces on `real_orders`: the primary key, the unique
-- `client_order_id`, and the partial index `real_orders_active_trade_intent_id_key` of
-- apps/api/prisma/migrations/0017_real_order_confirmed_absent/migration.sql.
use open_neotrader.Base.{
  ◌≡◌, refl, ◌||◌, ◌++◌, update_where, arith, ℕ, Bool, true, false, not, ◌&&◌, List, [], ◌∷◌, ◌==◌,
}
use open_neotrader.Store.Rows.{
  Status, pending_submit, submitted, accepted, partially_filled, filled, canceled, rejected,
  expired, submit_failed, confirmed_absent, RealOrder,
}

-- `TERMINAL_STATUSES` of real-order.service.ts, and the WHERE clause of the index
unfoldable pub is_terminal : Status → Bool
is_terminal filled = true
is_terminal canceled = true
is_terminal rejected = true
is_terminal expired = true
is_terminal submit_failed = true
is_terminal confirmed_absent = true
is_terminal pending_submit = false
is_terminal submitted = false
is_terminal accepted = false
is_terminal partially_filled = false

abbrev pub is_active : RealOrder → Bool
is_active r = not (is_terminal r.status)

-- Two rows may stand in the table together.
unfoldable pub compatible : RealOrder → RealOrder → Bool
compatible r s =
    not (r.id == s.id)
    && (not (r.client_order_id == s.client_order_id)
        && not (is_active r && (is_active s && r.trade_intent_id == s.trade_intent_id)))

unfoldable pub compatible_all : RealOrder → List RealOrder → Bool
compatible_all r [] = true
compatible_all r (s ∷ rows) = compatible r s && compatible_all r rows

unfoldable pub index_holds : List RealOrder → Bool
index_holds [] = true
index_holds (r ∷ rows) = compatible_all r rows && index_holds rows

-- The table has a row with this client order id.
unfoldable pub has_client : ℕ → List RealOrder → Bool
has_client c [] = false
has_client c (r ∷ rows) = r.client_order_id == c || has_client c rows

-- No client order id is lost.
abbrev pub Retains : List RealOrder → List RealOrder → Type 0
Retains before after = (c : ℕ) → has_client c before ≡ true → has_client c after ≡ true

-- A change of a row that leaves its client order id alone.
pub record SameClient (f : RealOrder → RealOrder) : Type 0 where
  pub same : (r : RealOrder) → (f r).client_order_id ≡ r.client_order_id

pub Retains-append : (rows : List RealOrder) (row : RealOrder) → Retains rows (rows ++ row ∷ [])
unfolding has_client
Retains-append [] row c h = cc
Retains-append (r ∷ rows) row c h = ground (arith, Retains-append rows row c)

pub Retains-update_where :
    (p : RealOrder → Bool) (f : RealOrder → RealOrder) (rows : List RealOrder)
    → SameClient f
    → Retains rows (update_where p f rows)
unfolding has_client
Retains-update_where p f [] s c h = h
Retains-update_where p f (r ∷ rows) s c h =
    ground (arith, s.same r, Retains-update_where p f rows s c)

pub has_client-append_self :
    (rows : List RealOrder) (row : RealOrder)
    → has_client row.client_order_id (rows ++ row ∷ []) ≡ true
unfolding has_client
has_client-append_self [] row = ground arith
has_client-append_self (r ∷ rows) row = ground (arith, has_client-append_self rows row)

apart :
    (r : RealOrder) (rows : List RealOrder) (row : RealOrder)
    → compatible_all r (rows ++ row ∷ []) ≡ true
    → (r.client_order_id == row.client_order_id) ≡ false
unfolding compatible_all compatible
apart r [] row h = ground arith
apart r (x ∷ rows) row h = ground (arith, apart r rows row)

-- Where a row could be added, no row had its client order id.
pub has_client-of_index :
    (rows : List RealOrder) (row : RealOrder)
    → index_holds (rows ++ row ∷ []) ≡ true
    → has_client row.client_order_id rows ≡ false
unfolding has_client index_holds
has_client-of_index [] row h = refl
has_client-of_index (r ∷ rows) row h =
    ground (arith, apart r rows row, has_client-of_index rows row)
