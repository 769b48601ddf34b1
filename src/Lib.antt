-- ===== src/Lib.antt =====
-- CodeMaster is an access control system for smart homes: a server that drives locks and keypads,
-- and a web page, src/CodeMaster.UI, from which doors are opened, users get PINs and schedules, and
-- the audit trail is read. This library models the page, that is the program in TypeScript, and of
-- the server the routes that the page calls, the decision on who is let in, the automatic lock,
-- the codes kept in a lock, and the queries of the audit trail.
--
-- Parts and files. Each component has a module; its children hold proofs, and more definitions where
-- they are named here.
--   Model: the data of types/index.ts (paths here are below src/CodeMaster.UI/src).
--   Doors: stores/useDoorStore.ts, the doors with their countdowns and commands in progress;
--     Doors/Messages any order of the halves of its methods.
--   Users: stores/useUserStore.ts, the users with their credentials and policies.
--   Audit: stores/useAuditStore.ts, the log entries, their filter and the events that are added.
--   Api: api/apiClient.ts. Api has getBasePath, buildUrl and request, Api/Calls the methods of
--     apiClient as the requests that they make, Api/Segments a path as the server reads it, and
--     Api/Routes the route attributes of src/CodeMaster.Web/Controllers.
--   DoorCard, Wizard with Wizard/Fields, UserForms, Schedule, LiveFeed, Settings: the components
--     DoorCard, DoorSetupWizard, UserManagement, ScheduleEditor, LiveEventFeed and SettingsView.
--   App: App.tsx, the frame that holds the tabs and the dialog for a door.
--   AutoLock: src/CodeMaster.Engine/Services/AutoLockStateMachine.cs, the timer that locks a door.
--   DoorService: DoorOperationService.cs beside it, the server's doors with a machine each, and
--     DoorService/Endpoints the commands of src/CodeMaster.Web/Controllers/AccessPointsController.cs.
--   Policy: IsActiveAt of src/CodeMaster.Core/Models/AccessPolicy.cs; of
--     src/CodeMaster.Engine/Services/AccessPolicyEvaluator.cs Policy/Pins has VerifyPin, Policy/Keypad
--     the search for the user and EvaluateAsync, and Policy/Evaluation the decision on the policies.
--   Registry: the tables of users, credentials, policies, assignments and slots, with the statements
--     of src/CodeMaster.Data/Repositories; Registry/Actions the actions of
--     src/CodeMaster.Web/Controllers/UsersController.cs, and Registry/Entry EvaluateAsync over them.
--   Slots: ReconcileDoorSlotsAsync of src/CodeMaster.Engine/Services/HardwareSlotSyncWorker.cs, which
--     brings the codes in a lock's own memory into line with the users: its data in Slots, its loops
--     in Slots/Reconcile.
--   Audit/Server: GetLogs of src/CodeMaster.Web/Controllers/AccessLogsController.cs, with its queries.
--   Text: the operations on strings that the program uses. Base: what all modules share.
--   Tests: sample data and examples.
-- The pages call the stores (DoorCard, App: Doors; UserForms: Users; LiveFeed: Audit, Doors), the
-- stores call apiClient, and apiClient calls the server, whose controllers call DoorService,
-- Registry and Audit/Server; DoorService tells each door's AutoLock what happens, and its timers call DoorService.
--
-- How the code is read. A store's state is a record and each method a function on it. A method that
-- awaits a call is two functions, what it sets before and what it sets after: `unlockDoor` is
-- `operate_begin`, then `unlock_door_end` with the call's outcome, and `unlock_door` is the two with
-- nothing between. `DoorMsg`, `UserMsg` and `AuditMsg` are the halves as messages and `reduce` runs
-- one, so that a list of messages is any interleaving of methods in progress. A call's outcome is
-- `ok` with a value, or `err` with the thrown error's message. A handler of a page runs to its end
-- without another event between. What a page renders is a record, without styling, icons and labels
-- that never change. Timers are separate functions: `feedback_expired`, `status_expired`, `tick`.
--
-- The automatic lock. A timer is the seconds left, and the callback of one that is due may come at
-- any moment; `step` of AutoLock/System runs one event of the machine, an attempt to lock and its answer being
-- two, so that a list of events is any interleaving. Each locked section of the code is one step. In
-- DoorService an attempt is one step, as its provider's answer is an argument. A cancelled timer does
-- not fire: a callback that has already begun when its timer is cancelled is left out.
--
-- Data. Whole numbers of JavaScript are ℤ (seconds, uses) or ℕ (masks of days); the bits of a mask
-- below 2 ^ 31 are taken, so that `&`, `|` and `~` do not meet a sign. undefined and null are one
-- `none`, but in a door's countdown, where `fetchDoors` tells them apart. An object used as a
-- dictionary is an association list of its own keys. A text is a list of code points. The decimal
-- digits of n are written on fuel n, as n divisions by ten bring n below ten; the search for a free
-- slot has the 30 rounds of the code's loop as its fuel; nothing else runs on fuel.
--
-- Parameters. `fetch` is what it answers (`Fetched`). `JSON.parse` and `JSON.stringify` on an
-- object with a topic are a `ConfigJson`, with their round trip as its laws. The browser's text for
-- a time is a function. ASP.NET Core's match of a path with a route template is written out for the
-- templates that the controllers use, which are literals and whole-segment parameters. SHA-256, the
-- upper case of a character and `Enum.TryParse` are functions; a lock's provider is its answer,
-- and in Slots its answer or its exception. The
-- storage's rows are arguments, in the order of their queries; in Registry the tables are lists, a
-- statement that breaks a key throws, and an `ORDER BY` is a function.
--
-- Not modelled: the server's storage of doors and groups, its lock providers,
-- MQTT, MCP and event stream (C#), which are input and output; the styles, icons and markup of the
-- page, which decide nothing; the checks that a browser makes of a form (`required`, `pattern`,
-- `min`, `max`); the inherited properties of objects; React's scheduling of effects but for the
-- order of events.
pub mod Base
pub mod Model
pub mod Doors
pub mod Text
pub mod Api
pub mod AutoLock
pub mod DoorService
pub mod Audit
pub mod Users
pub mod Schedule
pub mod Slots
pub mod UserForms
pub mod DoorCard
pub mod Wizard
pub mod LiveFeed
pub mod App
pub mod Policy
pub mod Registry
pub mod Settings
pub mod Tests
