-- ===== src/PowerSupply/Tests.antt =====
-- Runs of the functions of the source, and the theorems at concrete inputs.
use i3sd.Common.{ℕ, ◌≤◌, ◌≡◌, ◌↔◌, refl, Bool, true, false, List, [], ◌∷◌, ◌++◌, arith}
use i3sd.PowerSupply.{
  subsystem, event_is_power_supply, scan_fields, split_field, Source, source_needed, any_wanted,
  Run, Opening, open_source, reconcile, Received, datagram, interrupted, would_block, drain,
  after_drain, notify, notify_each, process, deadline,
}
use i3sd.PowerSupply.Fields.{Among, fields_of, event_is_power_supply_iff}
use i3sd.PowerSupply.Retrying.{Settled, process_settles}

abbrev event : List ℕ
event = b'a' ∷ b'@' ∷ 0 ∷ (subsystem ++ 0 ∷ b'X' ∷ [])

on_power_supply : event_is_power_supply event ≡ true
unfolding event_is_power_supply scan_fields split_field
on_power_supply = refl

event_is_power_supply_iff_example :
    (event_is_power_supply event ≡ true) ↔ Among subsystem (fields_of event)
event_is_power_supply_iff_example = event_is_power_supply_iff event

abbrev listening : Source
listening = record {
  fd = true;
  retry_deadline_ns = 0;
  current = true;
  staging = false;
  subscriptions = 1 ∷ 2 ∷ [];
  subscription = λ n. record { cancelled = false; faulted = false };
  calls = [];
}

abbrev do_nothing : Run
do_nothing n s = s

abbrev works : Opening
works = record { socket = true; bind = true; epoll_ctl = true }

abbrev answers : List Received
answers = interrupted ∷ datagram 27 event 0 ∷ datagram 27 event 0 ∷ would_block ∷ []

-- Two events are one notification.
both_called : (process do_nothing works answers listening 100).calls ≡ 2 ∷ 1 ∷ []
unfolding process drain event_is_power_supply scan_fields split_field after_drain notify notify_each
    reconcile source_needed any_wanted open_source
both_called = refl

process_settles_example :
    (◌≡◌ {A = Bool} true true → Settled 100 (process do_nothing works answers listening 100))
    × Settled 100 (reconcile works listening 100)
    × (source_needed listening ≡ true
        → deadline listening ≤ 100
        → ◌≡◌ {A = Bool} true true
        → ◌≡◌ {A = Bool} true true
        → ◌≡◌ {A = Bool} true true
        → (reconcile works listening 100).fd ≡ true)
process_settles_example = process_settles do_nothing works answers listening 100 (omega arith)
