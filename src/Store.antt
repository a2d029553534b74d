-- ===== src/Store.antt =====
-- The tables that the services read and write (models/*.ts), with the process' own state beside
-- them, and the calls through which they are reached.
-- Every database call and every clock reading happens at a point of a script that the environment
-- writes: for each call whether it fails, and how much time passes before it. A row is `destroyed`
-- once its `deletedAt` is set (the models are `paranoid`), and `deleted` by the code's own flag;
-- the queries see rows that are neither.
pub mod Calls
pub mod Atomic
pub mod OnlyReads
pub mod Commands
pub mod Preserves
pub mod Samples
use ginem_api.Common.{ℕ, ◌+◌, Bool, true, false, ◌&&◌, not, Option, none, some, List, [], ◌∷◌, ◌++◌}
use ginem_api.Common.Int.{ℤ}
use ginem_api.Common.Text.{Text}
use ginem_api.Common.Exec.{Result, ok, err, Exec, other, ◌>>=◌, ◌>>◌}

pub data DeviceType : Type 0 where
  sensor actuator hybrid : DeviceType

pub data State : Type 0 where
  on off : State

pub data DeviceStatus : Type 0 where
  online offline : DeviceStatus

-- The metadata is the text of a JSON object, which no service looks into.
pub record DeviceRow : Type 0 where
  pub device_id : ℕ
  pub device_token : Text
  pub device_name : Text
  pub device_description : Option Text
  pub device_type : DeviceType
  pub device_status : DeviceStatus
  pub device_firmware_version : Option Text
  pub device_metadata : Option Text
  pub deleted : Bool
  pub destroyed : Bool

pub record DeviceLogRow : Type 0 where
  pub device_log_id : ℕ
  pub device_log_device_id : ℕ
  pub device_log_data : Text
  pub created_at : ℕ
  pub deleted : Bool
  pub destroyed : Bool

pub data RuleConditionLogic : Type 0 where
  and or : RuleConditionLogic

-- `>`, `>=`, `<`, `<=`, `==` and `!=`
pub data RuleOperator : Type 0 where
  gt ge lt le eq ne : RuleOperator

pub record RuleRow : Type 0 where
  pub rule_id : ℕ
  pub name : Text
  pub original_prompt : Text
  pub condition_logic : RuleConditionLogic
  pub is_active : Bool
  pub cooldown_sec : ℕ
  pub last_triggered_at : Option ℕ
  pub user_id : Option ℕ
  pub deleted : Bool
  pub destroyed : Bool

pub record RuleTriggerRow : Type 0 where
  pub rule_id : ℕ
  pub device_id : ℕ
  pub metric : Text
  pub deleted : Bool

-- A finite number of the source is an integer count of a fixed small unit: the code compares and
-- passes on such numbers and does no arithmetic with them.
pub record RuleConditionRow : Type 0 where
  pub rule_id : ℕ
  pub device_id : ℕ
  pub metric : Text
  pub operator : RuleOperator
  pub threshold : ℤ
  pub unit : Option Text
  pub deleted : Bool

pub record RuleActionRow : Type 0 where
  pub rule_id : ℕ
  pub device_id : ℕ
  pub state : State
  pub deleted : Bool

pub record ConditionDetail : Type 0 where
  pub device_id : ℕ
  pub metric : Text
  pub operator : RuleOperator
  pub threshold : ℤ
  pub reading : Option ℤ
  pub ok : Bool

pub data ActionDetail : Type 0 where
  skipped : ℕ → State → ActionDetail
  published : ℕ → State → ℕ → Text → ActionDetail

pub data Execution : Type 0 where
  fired : RuleConditionLogic → List ConditionDetail → List ActionDetail → Execution
  failed : Execution

pub record RuleExecutionLogRow : Type 0 where
  pub rule_id : ℕ
  pub device_id : ℕ
  pub metrics : List (Text × ℤ)
  pub received_at : ℕ
  pub execution : Execution
  pub latency_ms : ℕ

pub data UserRole : Type 0 where
  admin user : UserRole

pub data OnboardingStatus : Type 0 where
  waiting completed : OnboardingStatus

pub record UserRow : Type 0 where
  pub user_id : ℕ
  pub user_name : Text
  pub user_password : Text
  pub user_email : Text
  pub user_role : UserRole
  pub user_onboarding_status : OnboardingStatus
  pub deleted : Bool
  pub destroyed : Bool

-- The primary key is a text that the seed of the table chooses.
pub record LlmModelRow : Type 0 where
  pub id : Text
  pub name : Text
  pub provider : Text
  pub is_selected : Bool
  pub deleted : Bool
  pub destroyed : Bool

pub data SchedulerCategory : Type 0 where
  once repeat : SchedulerCategory

pub data ScheduledJobType : Type 0 where
  actuator sensor_data : ScheduledJobType

pub data ScheduledJobStatus : Type 0 where
  pending active completed failed : ScheduledJobStatus

-- The `result` that a job records: of an actuator the device, its log row and the state, and
-- whether the broker was connected; of a sensor the device and the ids and values of its last logs.
pub data JobResult : Type 0 where
  actuated : ℕ → ℕ → Text → State → Bool → JobResult
  fetched : ℕ → List (ℕ × Text × ℕ) → JobResult

pub record SchedulerLogRow : Type 0 where
  pub scheduler_log_id : ℕ
  pub job_id : Text
  pub type : ScheduledJobType
  pub category : SchedulerCategory
  pub device_name : Text
  pub state : Option State
  pub delay_minutes : ℕ
  pub scheduled_at : ℕ
  pub run_at : ℕ
  pub cron_pattern : Option Text
  pub timezone : Text
  pub status : ScheduledJobStatus
  pub result : Option JobResult
  pub error : Option Text
  pub executed_at : Option ℕ
  pub deleted : Bool
  pub destroyed : Bool

-- What a transaction takes back.
pub record Db : Type 0 where
  pub devices : List DeviceRow
  pub device_logs : List DeviceLogRow
  pub rules : List RuleRow
  pub triggers : List RuleTriggerRow
  pub conditions : List RuleConditionRow
  pub actions : List RuleActionRow
  pub execution_logs : List RuleExecutionLogRow
  pub scheduler_logs : List SchedulerLogRow
  pub users : List UserRow
  pub llm_models : List LlmModelRow

-- services/rule/RuleCache.service.ts: a rule as the cache and the API show it
pub record CachedRuleTrigger : Type 0 where
  pub device_id : ℕ
  pub device_name : Text
  pub metric : Text

pub record CachedRuleCondition : Type 0 where
  pub device_id : ℕ
  pub device_name : Text
  pub metric : Text
  pub operator : RuleOperator
  pub threshold : ℤ
  pub unit : Option Text

pub record CachedRuleAction : Type 0 where
  pub device_id : ℕ
  pub device_name : Text
  pub state : State

pub record CachedRule : Type 0 where
  pub rule_id : ℕ
  pub name : Text
  pub original_prompt : Text
  pub condition_logic : RuleConditionLogic
  pub is_active : Bool
  pub cooldown_sec : ℕ
  pub last_triggered_at : Option ℕ
  pub trigger : CachedRuleTrigger
  pub conditions : List CachedRuleCondition
  pub actions : List CachedRuleAction

pub record RuleCache : Type 0 where
  pub rules : List CachedRule
  pub loaded : Bool

pub record Reply : Type 0 where
  pub fails : Bool
  pub elapsed : ℕ

-- The ids that `AUTO_INCREMENT` gives next are not taken back by a transaction. `commands` are the
-- commands published over MQTT, oldest first; `last_state` is the `state` text of the last status
-- that a device sent, if it sent one with such a field.
pub record World : Type 0 where
  pub db : Db
  pub next_rule_id : ℕ
  pub next_device_log_id : ℕ
  pub next_device_id : ℕ
  pub next_scheduler_log_id : ℕ
  pub next_user_id : ℕ
  pub job_id_counter : ℕ
  pub cache : RuleCache
  pub commands : List (ℕ × State)
  pub last_state : ℕ → Option Text
  pub now : ℕ
  pub script : List Reply

-- One database call: time passes, and the call fails or is made.
unfoldable pub answered : {A : Type 0} → List Reply → Exec World A → Exec World A
answered [] m w = m w
answered (r ∷ rest) m w =
    let w' : World = record w { now = w.now + r.elapsed; script = rest } in
    elim r.fails [ true ↦ (err other, w') | false ↦ m w' ]

unfoldable pub db_call : {A : Type 0} → Exec World A → Exec World A
unfolding answered
db_call m w = answered w.script m w

-- `sequelizeInit.transaction(async (tx) => …)`: the tables come back as they were when the body
-- throws or the commit fails.
unfoldable pub rolled_back : {A : Type 0} → Db → Result A × World → Result A × World
rolled_back before (ok a, w) = (ok a, w)
rolled_back before (err e, w) = (err e, record w { db = before })

unfoldable pub transaction : {A : Type 0} → Exec World A → Exec World A
unfolding rolled_back
transaction m w =
    rolled_back w.db ((do db_call (λ v. (ok tt, v)); a ← m; db_call (λ v. (ok a, v))) w)

abbrev pub update_db : (Db → Db) → Exec World (Unit {0})
update_db f w = (ok tt, record w { db = f w.db })
