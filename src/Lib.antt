-- ===== src/Lib.antt =====
-- LACT, the Linux GPU configuration tool of this repository: a daemon (lact-daemon) that owns the
-- configuration and the GPUs, and clients (lact-gui, lact-cli, through lact-client) that send it
-- requests over a socket. This library models the daemon's core and the request
-- function of the client.
--
-- How the parts interact: `handle_request` (lact-daemon/src/server.rs) hands a request to a method
-- of `Handler` (lact-daemon/src/server/handler.rs). A method that changes a GPU's settings is an
-- edit: the new settings go to the GPU at once and into the configuration only when the user
-- confirms them; until then a task waits, and restores the previous settings when its time runs out
-- or the user says so. Profiles replace the settings of all GPUs at once; the profile watcher
-- (lact-daemon/src/server/profiles.rs) follows the processes that run and switches to the first
-- profile whose rule they satisfy. The configuration (lact-daemon/src/config.rs) is migrated when
-- it is loaded.
--
-- Which file models which part:
-- - Common: names of the libraries, tests on numbers, results (`anyhow::Result`), methods that
--   change a state and may fail (`Exec`) with rules for what they keep and ensure (`Triples`), lists
--   of entries, sets, and texts with `lines` and `split_once` (`Text`).
-- - Crates: the third-party crates whose values the program keeps (`indexmap`, enumerations of
--   `amdgpu_sysfs`), a parameter of everything else, with their documented behaviour as laws.
-- - Watcher: `ProfileWatcherState` (lact-schema/src/lib.rs, lact-schema/src/profiles.rs), the scan
--   of lact-daemon/src/server/profiles/process.rs, `handle_profile_event` of profiles.rs.
-- - Rules: `profile_rule_matches` and `evaluate_current_profile` of profiles.rs.
-- - Config: the types and defaults of config.rs; Config.Clocks: `apply_clocks_command`;
--   Config.Migration: `migrate_versions`; Config.Profiles: `gpus`, `gpus_mut`, `profile`,
--   `default_profile`, `clear`; Config.Reload: `start_watcher`.
-- - FanCurve: `pwm_at_temp`, `into_pmfw_curve` and `validate` of
--   lact-daemon/src/server/gpu_controller/fan_control.rs; FanCurve.Task: the loops of
--   `start_curve_fan_control_task` in amd.rs and nvidia.rs of the same directory.
-- - Controllers: lact-daemon/src/server/gpu_controller.rs and its directory. Controllers.Uevent:
--   `parse_uevent`, `build_id` and `init_controller`; Controllers.Discovery: `load_controllers` and
--   the attempts of `with_base_path` in lact-daemon/src/server/handler.rs; Controllers.Amd: amd.rs,
--   with the handle of `amdgpu_sysfs` as the parameter `GpuHandle` (PowerCap, Clocks and Fans are
--   parts of `apply_config`, which Apply puts together); Controllers.Nvidia: nvidia.rs, with
--   `nvml_wrapper` as the parameter `Nvml`; Controllers.Intel: intel.rs, with the file system as the
--   parameter `FileSystem` (Memory takes what the kernel says about regions of memory as arguments).
-- - Client: `make_request` of lact-client/src/lib.rs, with the socket as the parameter `Transport`.
-- - Handler: the handler's state as a record, its GPUs and its file as an interface (`Env`);
--   Handler.Edit: `edit_gpu_config`, `wait_config_confirm` with its task,
--   `confirm_pending_config`; Handler.Settings: the requests about one GPU; Handler.Switch: the
--   requests about profiles; Handler.Autoswitch: `run_watcher` and `update_profile`;
--   Handler.Startup: the start of the daemon (`with_base_path`, `Config::load_or_create`);
--   Handler.Reload: `listen_config_changes`, `reload_gpus`, and the migration in `run`;
--   Handler.Requests: `handle_request`, and the daemon's life as a sequence of requests and of
--   tasks that wake.
-- - Examples: a concrete daemon, on which the theorems are applied.
--
-- How state is modelled: a method is a function from the handler to a result and the handler
-- afterwards (`Exec`), also when it fails. A `RefCell` or a lock is a field. A channel and the task
-- that listens to it are a numbered entry of `tasks`; what the task finds in its channel is its
-- `signal`. Requests and tasks interleave at the granularity of whole methods: each is one step.
-- While the profile watcher waits, the rest of the daemon may do anything to the handler but to the
-- watcher's own state (`meanwhile`). The end of a fan task, which may have panicked, is a call of the
-- parameter that stands for the device (`join_task`).
-- Hardware and file are abstract states that the interface's functions change. Texts of errors and
-- of the log are left out, the reasons for errors are kept.
--
-- Bounds and fuel: `migrate_versions` runs on fuel 3, one for each migration and one to end, which
-- is enough because the loop ends at any version from 2 on; `version` is a `u64` and its wrap is
-- written out, with the panic at version 0. Floats in the configuration are kept as IEEE 754 bit
-- patterns; the daemon stores them and compares them with 0 and 1, and the arithmetic of fan curves
-- is a parameter (`Floats`) with the laws of IEEE 754 that the theorems use. An `i32` keeps its
-- wrap-around (`wrap_i32`). Positions and versions are natural numbers with the bounds that the code
-- checks. The loops of the fan tasks and of the profile watcher run over a list of inputs, of any
-- length, one for each round.
--
-- The controllers behind `Env` and those of Controllers meet in the signature of `apply_config` and
-- `cleanup_clocks`: `Env` is what the handler relies on, and Controllers says what one device's
-- controller does. What the hardware and the drivers are relied on for is a record of laws
-- (`KeepsLevel`, `KeepsOffsets`, `KeepsFiles`), which the theorems take. The wait for the lowest clock
-- level of an AMD card is cut by its timeout after 12 pauses of 250 ms, the fuel of the loop. The
-- search for GPUs makes at most 5 attempts, each of which sees sysfs as it is then (`Found`). A client's
-- request runs on fuel, one for each call of the transport, and a theorem says how much is enough.
--
-- Not modelled: the queries of the GPU controllers that gather information and statistics for display,
-- except for those of Intel cards about frequencies, power and memory; the constructors of the
-- controllers; reading the configuration's file; D-Bus, sockets, JSON and the log; the other
-- methods of the client library, the command line and the graphical interface.
pub mod Common
pub mod Crates
pub mod Watcher
pub mod Rules
pub mod Config
pub mod Client
pub mod FanCurve
pub mod Controllers
pub mod Handler
pub mod Examples
