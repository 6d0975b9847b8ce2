-- ===== src/Service/Types.antt =====
-- cdinit/dinit/src/includes/service-constants.h, and the data of cdinit/dinit/src/includes/service.h:
-- `service_dep`, `service_record` and `service_set`; and of cdinit/dinit/src/includes/proc-service.h.
--
-- A pointer to a service or to a dependency link is a number. What a link and the adjacency lists
-- hold for good stands in `Graph`; the two flags of a link are maps of the `World`.
use cdinit.Base.{ℕ, zero, suc, Bool, true, false, ◌&&◌, Option, List, ◌==◌}
use Prim.Native.String.{String}

pub data ServiceState : Type 0 where
  stopped starting started stopping : ServiceState

abbrev pub is_stopped : ServiceState → Bool
is_stopped ServiceState.stopped = true
is_stopped _ = false

abbrev pub is_starting : ServiceState → Bool
is_starting ServiceState.starting = true
is_starting _ = false

abbrev pub is_started : ServiceState → Bool
is_started ServiceState.started = true
is_started _ = false

abbrev pub is_stopping : ServiceState → Bool
is_stopping ServiceState.stopping = true
is_stopping _ = false

pub data ServiceType : Type 0 where
  placeholder process bgprocess scripted internal triggered : ServiceType

pub data ServiceEvent : Type 0 where
  started stopped failed_start start_cancelled stop_cancelled : ServiceEvent

pub data ShutdownType : Type 0 where
  none remain halt poweroff reboot softreboot kexec : ShutdownType

pub data StoppedReason : Type 0 where
  normal dep_restart dep_failed failed exec_failed timed_out terminated : StoppedReason

abbrev pub did_finish : StoppedReason → Bool
did_finish StoppedReason.terminated = true
did_finish _ = false

pub data DependencyType : Type 0 where
  regular soft waits_for milestone before after : DependencyType

pub data AutoRestartMode : Type 0 where
  never always on_failure : AutoRestartMode

-- Of `service_flags_t`, the flags that service.cc reads.
pub record ServiceFlags : Type 0 where
  pub rw_ready : Bool
  pub log_ready : Bool
  pub starts_on_console : Bool
  pub runs_on_console : Bool
  pub always_chain : Bool
  pub kill_all_on_stop : Bool
  pub start_interruptible : Bool

-- `proc_status_t`, as far as dinit asks it.
pub record ProcStatus : Type 0 where
  pub did_exit : Bool
  pub exit_status : ℕ
  pub was_signalled : Bool
  pub signal : ℕ

abbrev pub did_exit_clean : ProcStatus → Bool
did_exit_clean st = st.did_exit && (st.exit_status == 0)

-- `int`, which may fall below zero; `negsuc n` is -(n + 1). Its upper end is not modelled.
pub data ℤ : Type 0 where
  pos : ℕ → ℤ
  negsuc : ℕ → ℤ

abbrev pub increment : ℤ → ℤ
increment (pos n) = pos (suc n)
increment (negsuc zero) = pos 0
increment (negsuc (suc n)) = negsuc n

abbrev pub decrement : ℤ → ℤ
decrement (pos zero) = negsuc 0
decrement (pos (suc n)) = pos n
decrement (negsuc n) = negsuc (suc n)

abbrev pub is_zero : ℤ → Bool
is_zero (pos zero) = true
is_zero _ = false

-- The fields of `service_record` that the dependency logic uses. `start_on_completion` is `none` for
-- the empty string; `is_triggered` is the field of `triggered_service`.
pub record Service : Type 0 where
  pub service_name : String
  pub record_type : ServiceType
  pub service_state : ServiceState
  pub desired_state : ServiceState
  pub onstart_flags : ServiceFlags
  pub auto_restart : AutoRestartMode
  pub pinned_stopped : Bool
  pub pinned_started : Bool
  pub dept_pinned_started : Bool
  pub waiting_for_deps : Bool
  pub waiting_for_console : Bool
  pub have_console : Bool
  pub start_explicit : Bool
  pub prop_require : Bool
  pub prop_release : Bool
  pub prop_failure : Bool
  pub prop_start : Bool
  pub prop_stop : Bool
  pub prop_pin_dpt : Bool
  pub start_failed : Bool
  pub start_skipped : Bool
  pub in_auto_restart : Bool
  pub in_user_restart : Bool
  pub required_by : ℤ
  pub force_stop : Bool
  pub stop_reason : StoppedReason
  pub start_on_completion : Option String
  pub is_triggered : Bool

-- The fields of `base_process_service`, `process_service` and `scripted_service`. `none` is the
-- process ID -1; `notification_open` is `notification_fd != -1`, `wants_notification` that a readiness
-- notification is configured. Times are in one unit; a timeout is only tested for being set.
pub record Proc : Type 0 where
  pub pid : Option ℕ
  pub stop_pid : Option ℕ
  pub exit_status : ProcStatus
  pub smooth_recovery : Bool
  pub doing_smooth_recovery : Bool
  pub waiting_for_execstat : Bool
  pub waiting_stopstart_timer : Bool
  pub waiting_restart_timer : Bool
  pub tracking_child : Bool
  pub stop_issued : Bool
  pub interrupting_start : Bool
  pub skippable : Bool
  pub notification_open : Bool
  pub wants_notification : Bool
  pub has_stop_command : Bool
  pub has_start_timeout : Bool
  pub has_stop_timeout : Bool
  pub has_socket_path : Bool
  pub socket_open : Bool
  pub term_signal : ℕ
  pub last_start_time : ℕ
  pub restart_delay : ℕ
  pub restart_interval : ℕ
  pub restart_interval_time : ℕ
  pub restart_interval_count : ℕ
  pub max_restart_interval_count : ℕ

-- What never changes in a `service_dep` while services run.
pub record Link : Type 0 where
  pub from : ℕ
  pub to : ℕ
  pub dep_type : DependencyType

-- `depends_on` and `dependents` of each service, as lists of links.
pub record Graph : Type 0 where
  pub depends_on : ℕ → List ℕ
  pub dependents : ℕ → List ℕ
  pub link : ℕ → Link

-- What the code does outside itself: listeners called, log lines, signals, hooks of dinit.cc.
pub data Output : Type 0 where
  notify : ℕ → ServiceEvent → Output
  log_started log_stopped log_chain_failed : ℕ → Output
  log_failed : ℕ → Bool → Output
  rootfs_is_rw setup_external_log kill_all take_terminal discard_console_log : Output
  enable_console_log : Bool → Output
  arm_timer stop_timer signal_stop_command : ℕ → Output
  signal : ℕ → ℕ → Output

-- The services with their `service_set`. `out` has the newest output first; `out_of_fuel` tells that
-- a recursion of the model was cut short.
pub record World : Type 0 where
  pub graph : Graph
  pub svc : ℕ → Service
  pub proc : ℕ → Proc
  pub waiting_on : ℕ → Bool
  pub holding_acq : ℕ → Bool
  pub records : List ℕ
  pub prop_queue : List ℕ
  pub stop_queue : List ℕ
  pub console_queue : List ℕ
  pub active_services : ℤ
  pub restart_enabled : Bool
  pub shutdown_type : ShutdownType
  pub out : List Output
  pub out_of_fuel : Bool
