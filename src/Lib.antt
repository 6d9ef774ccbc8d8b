-- ===== src/Lib.antt =====
-- Device Links for Home Assistant: the pure core, which turns rules into links, and wanted and
-- observed links into a plan of device writes.
--
-- A rule says what should happen. The compiler (custom_components/device_links/compiler.py) turns
-- one rule and the capabilities of the devices into links, setting writes and hybrid legs. The
-- planner (planner.py) compares the desired links with the observed ones and builds the plan:
-- removals, additions, and what is blocked. When a device is replaced, swap.py rewrites the rules
-- that name it and compiles them again to say what is lost. All work on the value types of
-- models.py. The coordinator (coordinator.py) keeps what the adapters answered, works out which
-- rule owns which link, and asks the planner for the plan of a part of the devices and rules. The
-- executor (executor.py) applies a plan: it refuses what must not be written, reads the devices
-- again, drops those whose plan is stale, writes device by device through the adapters
-- (backends/base.py), reads back what it wrote, and hands the coordinator and the stored state
-- (storage.py) what became of it.
--
-- Models      models.py. Errors: the exceptions as values of `Result`. Enums, Devices, Links, Rules,
--             Plans: the types, with `new_link`, `new_rule`, `new_profile` for the `__post_init__` of
--             `Link`, `Rule`, `Profile`; `identity`, `fingerprint`, `leg_identity` for the properties.
--             Escaping, Identity, Validation, Grouping hold the proofs.
-- Planner     planner.py. Classify: `_classify`; Adds: `_planned_adds`, `_capacity_of`; Build:
--             `_ordering`, `_token`, `build_plan`. Classes, Safety, Completeness, Capacity, Sequence: the
--             proofs.
-- Compiler    compiler.py. State: the accumulators and `_distinct`; Find: `_source_capabilities`,
--             `_emitter`, `_hybrid_features`, `_resolved_actions`, `_targets`; Legs: `_add_links`,
--             `_compile_reverse`; Hybrid: `_compile_hybrid`; Settings: `_check_semantics`,
--             `_compile_mirror`; Run: `run`, `compile_rule`. The other children hold the proofs.
-- Swap        swap.py. Types: the proposal, `rules_after`, `references`; Mapping: `emitters_used`,
--             `_map_emitter`; Rewrite: `_Rewriter`; Propose: `_refusals`, `propose`; Replacements:
--             `find_replacements`. The other children hold the proofs.
-- Diff        diff.py. Changes: `_link_changes`, `diff_against_links`, whose result has no rules.
--             Complete, Covered: the proofs.
-- Backends    backends/base.py. Base: the results of an adapter's calls, and what it reads.
--             Zwave: backends/zwave_protocol.py. Groups: `features_of_group`; Derive: `derive_emitters`;
--             Curated: `resolve_emitters`; Checks: `blocked_reason_for`. Carried, Offered: the proofs.
-- Storage     storage.py. State: the stored state, `with_snapshot`, `with_job`. Bounds: the proofs.
-- Coordinator coordinator.py. State: the attributes and plain reads; Holds: `async_hold_refresh`,
--             `_device_changed`, `_arm_flush`; Ownership: `_resolve_ownership` and what calls it; Reads:
--             `_read_all`, `_read_device`, `_forget_unlisted`; Plans: `async_plan`; Drift: `_rule_state`,
--             `pending_link_fingerprints`. Held, Armed, Owned, Refreshed, Scope,
--             Scoped, Presence, Standing, Counted: the proofs.
-- Executor    executor.py. Types: the outcomes and a job's operations; Refuse: `_refusal`,
--             `_is_system`; Prepare: `_resolve_devices`, `_stale_devices`, `_take_snapshot`; Device:
--             `_run_device` with `_write_all`, `_write`, `_call`, `_verify`; Run: `_run`, `_stop`;
--             Finish: `_finish`, also where `_run` is cancelled; Runner: `async_apply`, `progress`. Left,
--             Progress, Attempts, Liveness, Calls, Permitted, Grouped, Protected, Stopping, Kept,
--             Reported, Verified: the proofs.
-- Hybrid      hybrid.py. Indications: `_want_indication`, `_write_indication_now`, `_async_write`,
--             `_rewatch`. Paced, Spaced: the proofs.
-- Prelude     Python's `==`, `<=`, `sorted`, `dict`, `set` and `str`, as far as the core uses them.
-- Tests       Runs, and each result at an input.
--
-- Texts are lists of code points, so that they compare and sort as Python's strings do. A `dict`
-- is the list of its entries in insertion order. A `frozenset` is a list; where the code sorts a
-- set, the model drops repetitions and sorts. Endpoints, ids and capacities are natural numbers:
-- the protocols have no negative ones. The methods that append to accumulators take the
-- compilation and return it. `_resolved_actions` and `_planned_adds` walk sorted keys; the model
-- walks the sorted entries, and the keys of a dictionary are distinct. The digits that a
-- control's name may hold are those of Unicode 16. Every loop is a recursion on its list, but for
-- the one of `_shared_label`, which takes a character off for each round: its fuel is the length
-- of the label. A job runs one coroutine for each device, side by side. Each coroutine is a state
-- machine whose phase says what it waits for, and `World` holds the job and the coroutines. A
-- step of `Reach` delivers one event to one of them, or asks the job to stop; the events come in
-- any order and with any answer, timeout, exception or reading, so a theorem on `Reach` holds for
-- every interleaving. The pauses between retries are counted, since their lengths do not show.
-- The operations of a job are shared objects in the code; here a write holds the position of its
-- operation in the job. Where a step can raise `IndexError` or `ValueError` its result is an
-- `Option` (but a Z-Wave group's key is taken to be a number), and a warning is made of what its
-- text names. Ids, times and the text of a timeout are arguments. What a leg's indication goes
-- through is a list of events too, with the clock in milliseconds. What an adapter answers to the
-- coordinator is an argument too, exceptions included. The closures that `async_hold_refresh`
-- hands out are kept in a list beside the coordinator, and what happens to them on the event loop
-- is a list of events.
--
-- Not modelled: SHA-256 and the encoding in `_token` (a parameter); `diff_profiles` with its rows
-- of rules; loops.py; of executor.py the hold on refreshes around a job, and clocks; of
-- coordinator.py the listeners, the subscriptions and `find_loops`; of hybrid.py all but the
-- indications, and of these the end of a leg and the write that restores the original value; of
-- storage.py the JSON form and Home Assistant's store; serialisation; the Zigbee and Matter
-- codecs; and everything that talks to Home Assistant or a radio.
pub mod Prelude
pub mod Models
pub mod Planner
pub mod Compiler
pub mod Swap
pub mod Diff
pub mod Backends
pub mod Storage
pub mod Coordinator
pub mod Executor
pub mod Hybrid
mod Tests
