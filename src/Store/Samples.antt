-- ===== src/Store/Samples.antt =====
-- A world with empty tables, for the tests.
use ginem_api.Common.{none, [], false}
use ginem_api.Store.{World}

abbrev pub empty_world : World
empty_world = record {
  db = record {
    devices = [];
    device_logs = [];
    rules = [];
    triggers = [];
    conditions = [];
    actions = [];
    execution_logs = [];
    scheduler_logs = [];
    users = [];
    llm_models = [];
  };
  next_rule_id = 1;
  next_device_log_id = 1;
  next_device_id = 1;
  next_scheduler_log_id = 1;
  next_user_id = 1;
  job_id_counter = 0;
  cache = record { rules = []; loaded = false };
  commands = [];
  last_state = λ _. none;
  now = 0;
  script = [];
}
