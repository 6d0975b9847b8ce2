-- ===== src/Service/Tests.antt =====
-- The theorems on cdinit/dinit/src/service.cc at two services, of which the first needs the second.
mod References
mod Handlers
mod Stopping
mod Linking
mod Transitions
use cdinit.Base.{
  ℕ, zero, suc, ◌+◌, ◌≤◌, ◌<◌, ◌==◌, if◌then◌else◌, Bool, true, false, ◌≡◌, ◌⊎◌, refl, Option, none,
  some, List, [], ◌∷◌, arith, contains,
}
use cdinit.Service.Types.{
  ServiceState, ServiceType, DependencyType, AutoRestartMode, StoppedReason, ShutdownType,
  ServiceFlags, ProcStatus, ℤ, pos, Service, Proc, Graph, Link, World,
}
use cdinit.Service.State.{Dispatch}
use cdinit.Service.Process.{Os}
use cdinit.Service.Refs.Defs.{Owes, IsGraph}
use cdinit.Service.Refs.DoStop.{Respects}

abbrev pub graph : Graph
graph = record {
  depends_on = λ s. if s == 0 then 0 ∷ [] else [];
  dependents = λ s. if s == 1 then 0 ∷ [] else [];
  link = λ l. record { from = 0; to = 1; dep_type = DependencyType.regular };
}

pub graph-IsGraph : IsGraph graph
graph-IsGraph = record {
  own = λ s l. ground arith;
  once = λ s. ground arith;
  once_on = λ s. ground arith;
  listed = λ s l. ground arith;
}

abbrev pub flags : ServiceFlags
flags = record {
  rw_ready = false;
  log_ready = false;
  starts_on_console = false;
  runs_on_console = false;
  always_chain = false;
  kill_all_on_stop = false;
  start_interruptible = false;
}

abbrev pub service : Bool → ℕ → Service
service explicit required_by = record {
  service_name = "service";
  record_type = ServiceType.process;
  service_state = ServiceState.started;
  desired_state = ServiceState.started;
  onstart_flags = flags;
  auto_restart = AutoRestartMode.never;
  pinned_stopped = false;
  pinned_started = false;
  dept_pinned_started = false;
  waiting_for_deps = false;
  waiting_for_console = false;
  have_console = false;
  start_explicit = explicit;
  prop_require = false;
  prop_release = false;
  prop_failure = false;
  prop_start = false;
  prop_stop = false;
  prop_pin_dpt = false;
  start_failed = false;
  start_skipped = false;
  in_auto_restart = false;
  in_user_restart = false;
  required_by = pos required_by;
  force_stop = false;
  stop_reason = StoppedReason.normal;
  start_on_completion = none;
  is_triggered = false;
}

abbrev pub status : ProcStatus
status = record { did_exit = true; exit_status = 1; was_signalled = false; signal = 0 }

abbrev pub process : Proc
process = record {
  pid = some 100;
  stop_pid = none;
  exit_status = status;
  smooth_recovery = true;
  doing_smooth_recovery = false;
  waiting_for_execstat = false;
  waiting_stopstart_timer = false;
  waiting_restart_timer = false;
  tracking_child = true;
  stop_issued = false;
  interrupting_start = false;
  skippable = false;
  notification_open = false;
  wants_notification = false;
  has_stop_command = false;
  has_start_timeout = true;
  has_stop_timeout = true;
  has_socket_path = false;
  socket_open = false;
  term_signal = 15;
  last_start_time = 0;
  restart_delay = 2;
  restart_interval = 100;
  restart_interval_time = 0;
  restart_interval_count = 1;
  max_restart_interval_count = 3;
}

-- Both services are started. The second has `extra` references that no link accounts for.
abbrev pub world : ℕ → World
world extra = record {
  graph = graph;
  svc = λ s.
      if s == 0
      then service true 1
      else (if s == 1 then service false (1 + extra) else service false 0);
  proc = λ s. process;
  waiting_on = λ l. false;
  holding_acq = λ l. l == 0;
  records = 0 ∷ 1 ∷ [];
  prop_queue = 0 ∷ [];
  stop_queue = 1 ∷ [];
  console_queue = [];
  active_services = pos 2;
  restart_enabled = true;
  shutdown_type = ShutdownType.none;
  out = [];
  out_of_fuel = false;
}

pub world-Owes : Owes graph [] (world 0)
world-Owes = record { same_graph = refl; counted = λ s. ground arith }

pub world-Owes_extra : Owes graph (1 ∷ []) (world 1)
world-Owes_extra = record { same_graph = refl; counted = λ s. ground arith }

abbrev pub processes : Dispatch
processes = record {
  bring_up = λ s w. (true, w);
  bring_down = λ s w. w;
  can_interrupt_start = λ s w. true;
  interrupt_start = λ s w. (true, w);
  check_restart = λ s w. (true, w);
  becoming_inactive = λ s w. w;
  get_exit_status = λ s w. status;
  acquired_console = λ s w. w;
}

pub processes-Respects : Respects graph processes
processes-Respects = record {
  interrupt_start_keeps = λ p s w h. h;
  check_restart_keeps = λ p s w h. h;
  becoming_inactive_keeps = λ p s w h. h;
}

abbrev pub os : Os
os = record {
  spawn = λ s w. some 101;
  spawn_stop = λ s w. none;
  bind_socket = λ s w. true;
  time = λ w. 1;
}
