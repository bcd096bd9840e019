-- ===== src/Scheduler/Bounds.antt =====
-- The interval that an operator sets in cycle-scheduler.service.ts, over whole runs of the scheduler.
use open_neotrader.Base.{
  String, ◌≡◌, refl, Bool, true, false, Option, none, some, List, [], ◌∷◌, or_default,
  if◌then◌else◌, Bool-cases, inl, inr,
}
use open_neotrader.Number.{Number, is_finite}
use open_neotrader.Exec.{invalid_interval, pure, raise, ensuring, ◌>>=◌, ◌>>◌, skip}
use open_neotrader.Exec.Keeps.{
  Keeps, keeps_rules, Keeps-if, Keeps-bind, Keeps-modify, Keeps-skip, Keeps-pure, Keeps-raise,
  Keeps-gets, Keeps-ensuring,
}
use open_neotrader.Exec.Leads.{Gives, Leads-given}
use open_neotrader.Store.Rows.{Breaker}
use open_neotrader.Scheduler.State.{
  SchedulerConfig, Scheduler, Task, store_call, store_write, write_config, json_number, get_config,
  default_config, reset_circuit_breaker,
}
use open_neotrader.Scheduler.Cycle.{
  ConfigPatch, is_out_of_bounds, is_refused, patched, update_config, run_cycle, run_and_record,
  execute_tick, released, set_running, tick_if_due, tick_enabled, tick, start_now, run_now,
}
use open_neotrader.Scheduler.Keeps.{
  Quiet, Keeps-store_call, Keeps-ask, Keeps-save_cb, Keeps-get_circuit_breaker,
  Keeps-resolve_plugin_schedules, Keeps-check_circuit_breaker, Keeps-bump_run_count,
  Keeps-maybe_reflect, Keeps-handle_tick_error, Keeps-reset_circuit_breaker,
}

-- No interval, or one that `updateConfig` does not refuse.
abbrev InBounds : Option Number → Type 0
InBounds none = Unit
InBounds (some n) = is_out_of_bounds n ≡ false

-- No interval, or a finite one from a minute to a week.
abbrev pub IsWithin : Option Number → Type 0
IsWithin none = Unit
IsWithin (some n) = (is_finite n ≡ true) × (is_out_of_bounds n ≡ false)

IsWithin-InBounds : (o : Option Number) → IsWithin o → InBounds o
IsWithin-InBounds none h = tt
IsWithin-InBounds (some n) h = h.1

abbrev IsBounded : SchedulerConfig → Type 0
IsBounded c = InBounds c.override_interval_ms

-- The configuration that is read has its interval in bounds.
abbrev pub IsConfigured : Scheduler → Type 0
IsConfigured w = IsWithin (or_default w.config default_config).override_interval_ms

json_number-IsWithin : (o : Option Number) → InBounds o → IsWithin (json_number o)
json_number-IsWithin none h = tt
json_number-IsWithin (some n) h = elim (Bool-cases (is_finite n)) [
  | inl e ↦ rw e (e, h)
  | inr e ↦ rw e tt
]

patched-InBounds :
    (p : Option (Option Number)) (o : Option Number)
    → is_refused p ≡ false
    → InBounds o
    → InBounds (or_default p o)
patched-InBounds none o fine h = h
patched-InBounds (some none) o fine h = tt
patched-InBounds (some (some n)) o fine h = fine

IsConfigured-Quiet : Quiet IsBounded IsConfigured
IsConfigured-Quiet = record {
  at_rest = λ v w ext started running config later h. rw config h;
  at_bump = λ c time w fine h. json_number-IsWithin c.override_interval_ms fine;
}

Gives-config : Gives IsConfigured IsBounded get_config
unfolding get_config store_call ◌>>=◌
Gives-config = record {
  at = λ w h. elim (Bool-cases (w.external.store_works w.calls_made)) [
    | inl x ↦ rw x h
    | inr x ↦ rw x h
  ];
  value = λ w h. elim (Bool-cases (w.external.store_works w.calls_made)) [
    | inl x ↦ rw x (IsWithin-InBounds (or_default w.config default_config).override_interval_ms h)
    | inr x ↦ rw x tt
  ];
}

with_config :
    {A : Type 0} (next : SchedulerConfig → Task A)
    → ((c : SchedulerConfig) → IsBounded c → Keeps IsConfigured (next c))
    → Keeps IsConfigured (get_config >>= next)
with_config next k = record {
  at =
      (Leads-given {P = IsConfigured} {Q = IsConfigured} get_config next (λ w h. h) Gives-config
        (λ c fine. record { at = (k c fine).at })).at;
}

Keeps-write_config : (c : SchedulerConfig) → IsBounded c → Keeps IsConfigured (write_config c)
unfolding write_config store_write
Keeps-write_config c fine =
    Keeps-bind _ _ (Keeps-store_call IsConfigured-Quiet)
      (λ _. Keeps-modify _ (λ w h. json_number-IsWithin c.override_interval_ms fine))

refuse_or_write :
    (patch : ConfigPatch) (c : SchedulerConfig) (refused : Bool)
    → is_refused patch.override_interval_ms ≡ refused
    → IsBounded c
    → Keeps IsConfigured (
        if refused
        then raise invalid_interval
        else write_config (patched patch c) >> pure (patched patch c))
refuse_or_write patch c true e fine = Keeps-raise _
refuse_or_write patch c false e fine =
    Keeps-bind _ _
      (Keeps-write_config (patched patch c)
        (patched-InBounds patch.override_interval_ms c.override_interval_ms e fine))
      (λ _. Keeps-pure _)

Keeps-update_config : (patch : ConfigPatch) → Keeps IsConfigured (update_config patch)
unfolding update_config
Keeps-update_config patch = with_config _ (λ c fine. refuse_or_write patch c _ refl fine)

ruleset config_rules = (
  keeps_rules, IsConfigured-Quiet, Keeps-ask, Keeps-save_cb, Keeps-get_circuit_breaker,
  Keeps-resolve_plugin_schedules, Keeps-check_circuit_breaker, Keeps-maybe_reflect,
  Keeps-handle_tick_error, Keeps-bump_run_count,
)

Keeps-run_cycle : (prompt : Option String) → Keeps IsConfigured (run_cycle prompt)
unfolding run_cycle
Keeps-run_cycle prompt = Keeps-bind _ _ (Keeps-ask IsConfigured-Quiet _) (λ busy.
    Keeps-if busy _ _ (Keeps-pure _)
      (Keeps-bind _ _ (Keeps-modify _ (λ w h. h)) (λ _. Keeps-pure _)))

Keeps-guarded :
    {A : Type 0} (run : Task A)
    → Keeps IsConfigured run
    → Keeps IsConfigured (ensuring (set_running >> run) released)
unfolding set_running
Keeps-guarded run k =
    Keeps-ensuring _ _ (Keeps-bind _ _ (Keeps-modify _ (λ w h. h)) (λ _. k)) (λ w h. h)

Keeps-execute_tick :
    (c : SchedulerConfig) (cb : Breaker) → IsBounded c → Keeps IsConfigured (execute_tick c cb)
unfolding execute_tick run_and_record
Keeps-execute_tick c cb fine = search (config_rules, Keeps-run_cycle) depth 20

Keeps-tick_if_due :
    (c : SchedulerConfig) (cb : Breaker) → IsBounded c → Keeps IsConfigured (tick_if_due c cb)
unfolding tick_if_due
Keeps-tick_if_due c cb fine = search (config_rules, Keeps-guarded, Keeps-execute_tick) depth 20

Keeps-tick_enabled : (c : SchedulerConfig) → IsBounded c → Keeps IsConfigured (tick_enabled c)
unfolding tick_enabled
Keeps-tick_enabled c fine = search (config_rules, Keeps-tick_if_due) depth 14

Keeps-tick : Keeps IsConfigured tick
unfolding tick
Keeps-tick = Keeps-bind _ _ (Keeps-gets _) (λ running.
    Keeps-if running _ _ Keeps-skip
      (with_config _ (λ c fine. Keeps-if c.enabled _ _ (Keeps-tick_enabled c fine) Keeps-skip)))

Keeps-start_now : (prompt : Option String) → Keeps IsConfigured (start_now prompt)
unfolding start_now
Keeps-start_now prompt = Keeps-bind _ _ (Keeps-run_cycle prompt) (λ accepted.
    Keeps-if accepted _ _ (with_config _ (λ c fine. Keeps-bump_run_count IsConfigured-Quiet c fine))
      (Keeps-raise _))

Keeps-run_now : (prompt : Option String) → Keeps IsConfigured (run_now prompt)
unfolding run_now
Keeps-run_now prompt = search (config_rules, Keeps-guarded, Keeps-start_now) depth 20

-- A step of the scheduler; a fault ends the step, not the run.
pub data SchedulerStep : Type 0 where
  ticks : SchedulerStep
  runs : Option String → SchedulerStep
  updates : ConfigPatch → SchedulerStep
  resets : SchedulerStep

abbrev pub take_step : SchedulerStep → Task (Unit {0})
take_step ticks = tick
take_step (runs prompt) = run_now prompt
take_step (updates patch) = update_config patch >> skip
take_step resets = reset_circuit_breaker

abbrev pub take_steps : List SchedulerStep → Scheduler → Scheduler
take_steps [] w = w
take_steps (s ∷ steps) w = take_steps steps (take_step s w).1

Keeps-take_step : (s : SchedulerStep) → Keeps IsConfigured (take_step s)
Keeps-take_step ticks = Keeps-tick
Keeps-take_step (runs prompt) = Keeps-run_now prompt
Keeps-take_step (updates patch) = Keeps-bind _ _ (Keeps-update_config patch) (λ _. Keeps-skip)
Keeps-take_step resets = Keeps-reset_circuit_breaker IsConfigured-Quiet

-- An interval set by hand stays within its bounds: where the configuration names none or a finite
-- one from a minute to a week, it does so after every sequence of ticks, cycles started by hand, updates and
-- resets, whatever the updates ask for.
pub take_steps-IsConfigured :
    (steps : List SchedulerStep) (w : Scheduler)
    → IsConfigured w
    → IsConfigured (take_steps steps w)
take_steps-IsConfigured [] w h = h
take_steps-IsConfigured (s ∷ steps) w h =
    take_steps-IsConfigured steps _ ((Keeps-take_step s).at w h)
