-- ===== src/TradeIntent/Recording.antt =====
-- What `recordIntent` of trade-intent.service.ts records, and when it does not execute.
use open_neotrader.Base.{
  ℕ, suc, ◌≡◌, refl, true, false, none, some, [], ◌∷◌, ◌++◌, ◌⊎◌, inl, inr, find, Option-cases,
}
use open_neotrader.Exec.{
  Fault, invalid_action, invalid_confidence, ok, err, pure, raise, ◌>>=◌, on_option,
}
use open_neotrader.Store.Rows.{IntentStatus, TradeAction, TradeIntent, duplicate_of}
use open_neotrader.Store.World.{World}
use open_neotrader.Store.Calls.{now, new_id, db_call, read_db, create_intent}
use open_neotrader.RealOrder.Guards.{DatabaseWorks}
use open_neotrader.TradeIntent.Record.{
  IntentDto, parse_action, is_confidence, is_same_in_cycle, new_intent, record_duplicate,
  record_new, prior_in_cycle, record_valid, record_intent,
}
use open_neotrader.TradeIntent.Safety.{stored_policy}
use open_neotrader.TradeIntent.Exits.{twelve_later, policy_read}

-- A bad intent is refused before anything is called: where the text is no action, or the confidence is
-- no number between 0 and 1, `recordIntent` throws and nothing changes.
pub record_refused :
    (dto : IntentDto) (w : World)
    → (parse_action dto.action ≡ none) ⊎ (is_confidence dto.confidence ≡ false)
    → (fault : Fault) × (record_intent dto w ≡ (err fault, w))
unfolding record_intent record_valid on_option raise
record_refused dto w (inl bad) = (invalid_action, rw bad refl)
record_refused dto w (inr bad) = elim (Option-cases (parse_action dto.action)) [
  | inl none_such ↦ (invalid_action, rw none_such refl)
  | inr (action, is) ↦ (invalid_confidence, rw (is, bad) refl)
]

-- A cycle acts once on a symbol: where the database works, and the table has an intent of the same
-- cycle, symbol and action, a valid intent is appended as a duplicate that names the first such one,
-- the broker is told nothing, and the paper account stays as it is.
pub record_duplicate-told :
    (dto : IntentDto) (w : World) {action : TradeAction} {cycle : ℕ} {prior : TradeIntent}
    → DatabaseWorks w
    → parse_action dto.action ≡ some action
    → is_confidence dto.confidence ≡ true
    → dto.cycle_id ≡ some cycle
    → find (is_same_in_cycle cycle dto.symbol action) w.db.intents ≡ some prior
    → let after = record_intent dto w in
      (after.1.told ≡ w.told)
      × (after.1.db.paper ≡ w.db.paper)
      × ((row : TradeIntent) × (after.0 ≡ ok row)
          × (after.1.db.intents ≡ w.db.intents ++ row ∷ [])
          × (row.status ≡ IntentStatus.duplicate)
          × (row.outcome ≡ some (duplicate_of prior.id)))
unfolding record_intent record_valid prior_in_cycle record_duplicate read_db db_call now new_id
    create_intent ◌>>=◌
record_duplicate-told dto w {action} {cycle} {prior} works parsed valid in_cycle earlier =
    let n = w.calls_made in
    rw (parsed, valid, in_cycle, works n, earlier, works (suc (suc (suc n))))
      (refl, refl, (_, refl, refl, refl, refl))

no_prior :
    (dto : IntentDto) (w : World) (action : TradeAction)
    → dto.cycle_id ≡ none
    → prior_in_cycle dto action w ≡ (ok none, w)
unfolding prior_in_cycle on_option pure
no_prior dto w action alone = rw alone refl

-- the world after a row is appended, `n` being the number of the next call
abbrev appended : TradeIntent → World → ℕ → World
appended row w n = record w {
  calls_made = n;
  db = record w.db { intents = w.db.intents ++ row ∷ [] };
}

new_waits :
    (dto : IntentDto) (w : World) (action : TradeAction)
    → DatabaseWorks w
    → (stored_policy w.external w.db.kv).autonomous ≡ false
    → let row = new_intent dto action (w.external.new_id w.calls_made) in
      record_new dto action w ≡ (ok row, appended row w (twelve_later (suc (suc w.calls_made))))
unfolding record_new new_id create_intent db_call ◌>>=◌
new_waits dto w action works manual =
    let row = new_intent dto action (w.external.new_id w.calls_made) in
    rw
      (
        works (suc w.calls_made),
        policy_read (appended row w 0) works (suc (suc w.calls_made)),
        manual,
      )
      refl

-- A person decides: where the database works, `execution.autonomous` reads as false, and the intent is
-- valid and belongs to no cycle, it is appended as pending, the broker is told nothing, and the paper
-- account stays as it is.
pub record_waits :
    (dto : IntentDto) (w : World) {action : TradeAction}
    → DatabaseWorks w
    → parse_action dto.action ≡ some action
    → is_confidence dto.confidence ≡ true
    → dto.cycle_id ≡ none
    → (stored_policy w.external w.db.kv).autonomous ≡ false
    → let after = record_intent dto w in
      let row = new_intent dto action (w.external.new_id w.calls_made) in
      (after.0 ≡ ok row)
      × (after.1.db.intents ≡ w.db.intents ++ row ∷ [])
      × (after.1.told ≡ w.told)
      × (after.1.db.paper ≡ w.db.paper)
unfolding record_intent record_valid ◌>>=◌
record_waits dto w {action} works parsed valid alone manual =
    rw (parsed, valid, no_prior dto w action alone, new_waits dto w action works manual)
      (refl, refl, refl, refl)
