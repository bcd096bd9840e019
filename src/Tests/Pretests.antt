-- ===== src/Tests/Pretests.antt =====
-- A simulated portfolio, its fills, its marks and its promotion.
use open_neotrader.Base.{
  Option, ℕ, suc, ◌+◌, ◌≡◌, ◌⊎◌, refl, true, none, some, List, [], ◌∷◌, select, find, arith, ap,
}
use open_neotrader.Number.{ℤ, pos, negsuc, Number, nan, finite, zero_num}
use open_neotrader.Exec.{ok}
use open_neotrader.Exec.Leads.{Yields}
use open_neotrader.TradeIntent.Policy.{read_execution_policy, risk_policy_of}
use open_neotrader.Pretest.State.{
  sell, PretestTrade, PretestState, PretestPortfolio, PretestExternal, Pretests,
}
use open_neotrader.Pretest.Book.{is_at, opened, apply_trades}
use open_neotrader.Pretest.Fill.{PretestPolicy, ToolCall, word, is_quote_plausible, simulate_fills}
use open_neotrader.Pretest.Floor.{read_risk_policy, apply_kernel_risk_floor}
use open_neotrader.Pretest.Marks.{update_equity_metrics}
use open_neotrader.Pretest.Promote.{default_state, promote}
use open_neotrader.Pretest.Promotion.{IsAllowed, promote-guarded}
use open_neotrader.Pretest.Cycle.{CycleTurn, run_all_active}
use open_neotrader.Pretest.Untouched.{AreBooks}
use open_neotrader.Pretest.Cycles.{run_all_active-AreBooks}
use open_neotrader.Pretest.Ceiling.{
  IsWithin, new_symbols, is_no_entry, stored_risk, apply_kernel_risk_floor-IsWithin,
}
use open_neotrader.Pretest.Mirror.{read_risk_policy-read_execution_policy}
use open_neotrader.Pretest.Flat.{Cancels, exit_call, simulate_fills-apply_trades}
use open_neotrader.Pretest.Peaks.{SameBook, IsRaised, update_equity_metrics-IsRaised}
use open_neotrader.Tests.{external, world_of, first_number, ten}
use open_neotrader.Tests.Entries.{whole, difference}

-- Everything works, and every symbol is quoted at ten.
abbrev trial_external : PretestExternal
trial_external = record {
  store_works = λ _. true;
  now = λ n. n;
  quote = λ _ _. some ten;
  arrival = λ _ ps. ps;
  market = λ _. record {
    mark_quote = λ _. some ten;
    fill_quote = λ _. some ten;
    arrival = λ ps. ps;
    today = 1;
    this_week = 1;
  };
  activate_works = λ _ _. true;
  set_config_works = λ _ _. true;
  readers = external.readers;
  arithmetic = first_number;
  sqrt = λ x. x;
}

-- a short of ten of symbol 5
abbrev trial_state : PretestState
trial_state = record (default_state ten) { positions = opened 5 (finite (negsuc 9)) ten ∷ [] }

abbrev trial : PretestPortfolio
trial = record {
  id = 1;
  initial_capital = ten;
  plugin_ids = 3 ∷ [];
  configured_ids = [];
  state = trial_state;
  run_count = 0;
  last_run_at = none;
  is_active = true;
}

abbrev trials : Pretests
trials = record {
  external = trial_external;
  calls_made = 0;
  portfolios = trial ∷ [];
  kv = [];
  plugin_calls = [];
}

-- One closed sale, and thresholds that are all read as zero: the gate is passed.
abbrev sold_six : PretestTrade
sold_six = record {
  ts = 1;
  symbol = 6;
  action = sell;
  price = ten;
  quantity = ten;
  pnl = some ten;
  entry_price = some ten;
}

abbrev proven : Pretests
proven = record trials {
  portfolios = record trial { state = record trial_state { trades = sold_six ∷ [] } } ∷ [];
  kv =
      ("pretest.gate.min_trades", "0")
      ∷ ("pretest.gate.min_sharpe", "0")
      ∷ ("pretest.gate.min_loss_trades", "0")
      ∷ [];
}

promote-guarded_example : ((promote 1 true proven).1.plugin_calls ≡ []) ⊎ IsAllowed proven 1 true
promote-guarded_example = promote-guarded 1 true proven

abbrev enter : ℕ → ToolCall
enter symbol = record { symbol = some symbol; action = word "long" }

abbrev cycle_calls : List ToolCall
cycle_calls = enter 6 ∷ exit_call 5 ∷ []

apply_kernel_risk_floor-IsWithin_example :
    Yields
      (λ result.
        IsWithin
          (stored_risk trials)
          trial_state.positions
          (new_symbols trial_state.positions result.0 [])
        × (select is_no_entry result.0 ≡ select is_no_entry cycle_calls)
        × (result.1.positions ≡ trial_state.positions))
      (apply_kernel_risk_floor cycle_calls trial_state trials).0
apply_kernel_risk_floor-IsWithin_example =
    apply_kernel_risk_floor-IsWithin cycle_calls trial_state trials

read_risk_policy-read_execution_policy_example :
    Yields
      (λ pretest.
        Yields (λ live. pretest ≡ risk_policy_of live) (read_execution_policy (world_of [])).0)
      (read_risk_policy trials).0
read_risk_policy-read_execution_policy_example =
    read_risk_policy-read_execution_policy trials (world_of []) (refl, refl, refl)

abbrev usual : PretestPolicy
usual = record {
  sizing_pct = ten;
  slippage_pct = zero_num;
  commission_pct = zero_num;
  borrow_cost_pct = zero_num;
}

-- there is no reference close
abbrev no_closes : ℕ → Number
no_closes symbol = nan

abbrev wants_six : ℕ → Option CycleTurn
wants_six id = some (record {
  tool_calls = cycle_calls;
  exposure_scalar = some ten;
  policy = usual;
  reference_closes = no_closes;
  benchmark_symbol = 9;
})

run_all_active-AreBooks_example : AreBooks (run_all_active wants_six trials).1
unfolding default_state
run_all_active-AreBooks_example = run_all_active-AreBooks wants_six trials (((tt, tt), refl), tt)

difference_same : (m n : ℕ) → m ≡ n → difference m n ≡ pos 0
difference_same m n h = ground (arith, h)

whole_sub : (z : ℤ) → whole.sub (finite z) (finite z) ≡ zero_num
whole_sub (pos n) = ap finite (difference_same (n + 0) (0 + n) (omega arith))
whole_sub (negsuc n) = ap finite (difference_same (0 + suc n) (suc n + 0) (omega arith))

whole-Cancels : Cancels whole
whole-Cancels = record {
  sub_self = whole_sub;
  add_opposite = λ n. ap finite (difference_same (0 + suc n) (suc n + 0) (omega arith));
}

simulate_fills-apply_trades_example :
    (ts : List PretestTrade) × ((simulate_fills whole
        (exit_call 5 ∷ [])
        trial_state
        usual
        no_closes
        trials).0
      ≡ ok ts)
    × (find (is_at 5) (apply_trades whole trial_state ts zero_num).positions ≡ none)
unfolding default_state is_quote_plausible
simulate_fills-apply_trades_example =
    simulate_fills-apply_trades whole 5 trial_state usual no_closes zero_num trials (negsuc 9) ten
      whole-Cancels (tt, tt) refl refl (λ h. ground (arith, h)) refl refl

update_equity_metrics-IsRaised_example :
    (after : PretestState) × ((update_equity_metrics whole 9 trial_state usual no_closes trials).0
      ≡ ok after)
    × IsRaised whole trial_state after
    × SameBook trial_state after
update_equity_metrics-IsRaised_example =
    update_equity_metrics-IsRaised whole 9 trial_state usual no_closes trials
