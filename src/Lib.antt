-- ===== src/Lib.antt =====
-- The backend of a home-automation assistant (src/): devices report telemetry over MQTT, automation
-- rules (event, condition, action) act on it, and actuators are scheduled for a time of day.
--
-- Parts and files.
-- * Rule management (src/services/rule/RuleManagement.service.ts) is Rule/Management.antt with
--   Changes.antt (`create`, `setActive`, `remove`) and Update.antt (`update`) below it. A rule is a
--   row with a trigger, conditions and actions; a change is made in one transaction, after which the
--   cache is rebuilt from the tables.
-- * The cache (src/services/rule/RuleCache.service.ts) is Rule/Cache.antt. The engine reads it.
-- * The engine (src/services/rule/RuleEngine.service.ts) is Rule/Engine.antt: `evaluate` walks over
--   the cached rules of the event's device, reads the conditions (Rule/Engine/Readings.antt), and
--   publishes the actions.
-- * The metrics of a payload (src/services/rule/telemetryMetrics.ts) are Rule/Telemetry.antt.
-- * Pages of listings (src/utilities/pagination.ts) are Paging.antt; Rule/Management/Listing.antt has
--   the listings of rules and of their execution logs.
-- * Schedule dates (src/services/scheduler/deviceSchedule.datetime.ts) are Schedule/DateTime.antt
--   and its Parse.antt, over the calendar of Schedule/Calendar.antt.
-- * Schedules (src/services/mcp/DeviceSchedule.service.ts) are Schedule/Service.antt, over the queue
--   of Schedule/Queue.antt (src/services/scheduler/deviceSchedule.queue.ts). Schedule/Jobs.antt is
--   what a job does when it runs (deviceSchedule.jobs.ts, deviceSchedule.worker.ts), and
--   Schedule/Log.antt the log of schedules (SchedulerLog.service.ts). A schedule is a row of the
--   table and a job of the queue; after a restart the rows are put into the queue again.
--   Schedule/Tools.antt are the tools by which the language model reaches them
--   (src/services/mcp/tools/device/deviceActuatorScheduler.tools.ts).
-- * Devices and their logs (src/services/device/*.ts) are Device.antt, with what the rules and
--   schedules use, and Device/Service.antt and Device/Logs.antt, with the other operations.
--   Device/Tools.antt are the tools by which the language model reads and records values
--   (src/services/mcp/tools/device/deviceLogs.tools.ts, deviceQuery.tools.ts).
-- * Messages (src/services/mqtt/topics.ts, MQTT.service.ts) are Mqtt.antt; Mqtt/Ingest.antt is the
--   listener of telemetry (Telemetry.service.ts), which logs a value and calls the engine.
-- * Accounts are Accounts.antt with Auth.antt, Admin.antt and Profile.antt below it
--   (src/services/auth, admin and profile).
-- * The choice of the language model (src/services/llm/LLMModel.service.ts) is LanguageModel.antt.
-- * The harness that evaluates the language model (evaluation/) is Evaluation.antt: retrying
--   (runner/retry.ts), the semaphore (runner/concurrency.ts), the comparison of values, tools and
--   parameters and the errors found (metrics/*.ts).
-- * The tables (src/models/*.ts) are Store.antt, a record of rows with the state of the process
--   beside them. Common.antt and the files below it hold tests, lists, texts and error results.
--
-- Names are those of the source in snake case; a method of a service is a function of the same
-- name, and a long body is cut into functions that follow its blocks.
--
-- Effects. An operation is a state-passing action that returns a value or throws, an `AppError` or
-- another error. Each call of the database first uses up one entry of a script that the environment
-- writes: time passes, and the call fails or is made. A theorem for every world is a theorem for
-- every such script. Operations run one after the other; two requests are not interleaved. Calls of
-- the queue use up the same script. The semaphore is a step relation, in which the environment
-- chooses the order.
--
-- Numbers. Ids and instants are naturals. Readings and thresholds, which the code compares and does
-- no arithmetic with, are integers (counts of a small unit). Instants are milliseconds from one day
-- before the year 0. `Number`, `JSON.parse` and how an engine reads a date string whose year does
-- not have four digits are parameters, about which no hypothesis is made; so are the hash of a
-- password, the token of a login, and the operator LIKE and
-- the order of names. Of the queue (BullMQ) a record of laws says what the code relies on: a job
-- that is added is there, and adding or removing one job loses no other.
--
-- Loops are structural recursion, so that no fuel is needed; the digits of a number are printed with
-- fuel one more than the number, which is enough since reading them back gives the number.
--
-- Not modelled: the tools for rules, chat, WhatsApp, retrieval, the message broker, statistics and
-- the application log, the runner and the reports of the evaluation, and the HTTP layer; the
-- connections to the database, the broker and the queue; log messages of the process.
pub mod Common
pub mod Store
pub mod Device
pub mod Rule
pub mod Paging
pub mod Schedule
pub mod Mqtt
pub mod Accounts
pub mod LanguageModel
pub mod Evaluation
