-- ===== src/Tests/Pit.antt =====
-- mythril/src/virtdev/pit.rs at concrete inputs.
use mythril.Prelude.{◌+◌, ◌*◌, [], none}
use mythril.Time.Core.{Timing}

abbrev timing : Timing
timing = record {
  wheel = record { counter = 0; timers = [] };
  clock = record { readings = λ n. 1000 + n * 100; taken = 0 };
  scheduled = none;
  machines = record { contexts = []; vms = []; notified = [] };
}
