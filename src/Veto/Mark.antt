-- ===== src/Veto/Mark.antt =====
-- The bar at which a vetoed signal is marked to market, and what is fetched to find it: the functions
-- of veto-analyzer.service.ts outside its class. The horizon, which the source takes as any number, is a
-- whole number of bars here.
use text.Mathlib.Text.{◌==◌ as str_eq}
use Prim.Native.Nat.{◌/◌}
use open_neotrader.Base.{
  ℕ, zero, suc, String, ◌+◌, ◌*◌, ◌-◌, Bool, false, ◌||◌, Option, none, some, List, [], ◌∷◌, ltb,
  leb, length, or_default, if◌then◌else◌,
}
use open_neotrader.Number.{Number, num_of}
use open_neotrader.Exec.{Result, ok, err, type_error}
use open_neotrader.Execution.Account.{Arithmetic}
use open_neotrader.Veto.State.{OhlcvBar}

-- `BackfillOptions`
pub record BackfillOptions : Type 0 where
  pub horizon_bars : Option ℕ
  pub timeframe : Option String
  pub cost_bps : Option Number
  pub reprocess_insufficient : Option Bool

-- `ResolvedBackfillOptions`
pub record ResolvedBackfillOptions : Type 0 where
  pub horizon_bars : ℕ
  pub timeframe : String
  pub cost_bps : Number
  pub reprocess_insufficient : Bool

-- `resolveOptions`
unfoldable pub resolve_options : BackfillOptions → ResolvedBackfillOptions
resolve_options opts = record {
  horizon_bars = or_default opts.horizon_bars 5;
  timeframe = or_default opts.timeframe "1d";
  cost_bps = or_default opts.cost_bps (num_of 10);
  reprocess_insufficient = or_default opts.reprocess_insufficient false;
}

-- `barDurationMs`
unfoldable pub bar_duration_ms : String → ℕ
bar_duration_ms timeframe =
    if str_eq timeframe "1m"
    then 60000
    else if str_eq timeframe "5m"
    then 300000
    else if str_eq timeframe "15m"
    then 900000
    else if str_eq timeframe "30m"
    then 1800000
    else if str_eq timeframe "1h"
    then 3600000
    else if str_eq timeframe "4h"
    then 14400000
    else if str_eq timeframe "1w"
    then 604800000
    else 86400000

-- `isSupportedAction`
unfoldable pub is_supported_action : String → Bool
is_supported_action action = str_eq action "long" || str_eq action "short"

-- `isMature`
unfoldable pub is_mature : ℕ → ℕ → String → ℕ → Bool
is_mature decision_ts horizon_bars timeframe now =
    leb (decision_ts + horizon_bars * bar_duration_ms timeframe) now

-- `Math.ceil(n / d)` where `n` is not negative
abbrev pub ceil_div : ℕ → ℕ → ℕ
ceil_div n d = (n + d - 1) / d

abbrev pub fetch_limit_buffer : ℕ
fetch_limit_buffer = 20

abbrev pub max_fetch_limit : ℕ
max_fetch_limit = 1500

-- `computeNeededFetchLimit`; for a decision in the future `n - m`, which stops at 0, is the maximum
unfoldable pub compute_needed_fetch_limit : ℕ → ℕ → String → ℕ → ℕ
compute_needed_fetch_limit decision_ts horizon_bars timeframe now =
    let since = ceil_div (now - decision_ts) (bar_duration_ms timeframe) in
    let needed = since + horizon_bars + fetch_limit_buffer in
    if ltb max_fetch_limit needed then max_fetch_limit else needed

-- a bar with its parsed time, which is later than the decision
abbrev pub Dated : Type 0
Dated = OhlcvBar × ℕ

abbrev keep_later : Option ℕ → ℕ → OhlcvBar → List Dated → List Dated
keep_later none decision bar rest = rest
keep_later (some ms) decision bar rest = if ltb decision ms then (bar, ms) ∷ rest else rest

-- `.map(…).filter(…)`
abbrev pub later_bars : (String → Option ℕ) → ℕ → List OhlcvBar → List Dated
later_bars parse decision [] = []
later_bars parse decision (b ∷ bs) =
    keep_later (parse b.ts) decision b (later_bars parse decision bs)

abbrev pub insert_by_time : Dated → List Dated → List Dated
insert_by_time x [] = x ∷ []
insert_by_time x (y ∷ ys) =
    let rest = insert_by_time x ys in if leb x.1 y.1 then x ∷ y ∷ ys else y ∷ rest

-- `.sort((a, b) => a.ms - b.ms)`, which is stable
abbrev pub sort_by_time : List Dated → List Dated
sort_by_time [] = []
sort_by_time (x ∷ xs) = insert_by_time x (sort_by_time xs)

abbrev pub get_elem? : List Dated → ℕ → Option Dated
get_elem? [] n = none
get_elem? (x ∷ xs) zero = some x
get_elem? (x ∷ xs) (suc n) = get_elem? xs n

abbrev bar_of : Option Dated → Result (Option OhlcvBar)
bar_of none = err type_error
bar_of (some x) = ok (some x.0)

-- `after[n - 1].bar`, which throws where there is no such element
abbrev pub bar_at : List Dated → ℕ → Result (Option OhlcvBar)
bar_at after zero = err type_error
bar_at after (suc n) = bar_of (get_elem? after n)

abbrev pub locate_after :
    (String → Option ℕ) → List OhlcvBar → Option ℕ → ℕ → Result (Option OhlcvBar)
locate_after parse bars none horizon_bars = ok none
locate_after parse bars (some decision) horizon_bars =
    let after = sort_by_time (later_bars parse decision bars) in
    if ltb (length after) horizon_bars then ok none else bar_at after horizon_bars

-- `locateMarkBar`
unfoldable pub locate_mark_bar :
    (String → Option ℕ) → List OhlcvBar → String → ℕ → Result (Option OhlcvBar)
locate_mark_bar parse bars decision_ts horizon_bars =
    locate_after parse bars (parse decision_ts) horizon_bars

-- `computeNetUnitReturn`
unfoldable pub compute_net_unit_return : Arithmetic → String → Number → Number → Number → Number
compute_net_unit_return a action ref_price mark_price cost_bps =
    let gross =
      if str_eq action "long"
      then a.div (a.sub mark_price ref_price) ref_price
      else a.div (a.sub ref_price mark_price) ref_price in
    a.sub gross (a.div cost_bps (num_of 10000))
