-- ===== src/Rules.antt =====
-- src/core/rules: rule.hpp, with its parser and its engine in the modules below.
pub mod Parser
pub mod Writer
pub mod Engine
mod NodeTests
mod Tests
use vaulkeeper.Prelude.{Bool, List, [], ℕ}
use vaulkeeper.Prelude.Bytes.{Bytes}

pub data RuleAction : Type 0 where
  delete_to_quarantine : RuleAction
  permanent_delete : RuleAction
  compress : RuleAction
  move_to : RuleAction
  tag_with : RuleAction
  run_shell : RuleAction
  notify : RuleAction

pub data RuleTriggerKind : Type 0 where
  cron_trigger : RuleTriggerKind
  free_space_below : RuleTriggerKind
  on_boot : RuleTriggerKind
  on_login : RuleTriggerKind
  on_external_disk : RuleTriggerKind
  manual : RuleTriggerKind

pub record RuleTrigger : Type 0 where
  pub kind : RuleTriggerKind
  pub cron_expression : Bytes
  pub free_space_threshold_bytes : ℕ

pub record RuleCondition : Type 0 where
  pub path : Bytes
  pub min_age_days : ℕ
  pub min_size_bytes : ℕ
  pub max_size_bytes : ℕ
  pub extensions : List Bytes
  pub matcher : Bytes

pub record Rule : Type 0 where
  pub id : Bytes
  pub description : Bytes
  pub enabled : Bool
  pub dry_run : Bool
  pub trigger : RuleTrigger
  pub condition : RuleCondition
  pub action : RuleAction
  pub action_target : Bytes
  pub priority : ℕ

abbrev pub no_trigger : RuleTrigger
no_trigger = record { kind = manual; cron_expression = []; free_space_threshold_bytes = 0 }

abbrev pub no_condition : RuleCondition
no_condition = record {
  path = [];
  min_age_days = 0;
  min_size_bytes = 0;
  max_size_bytes = 0;
  extensions = [];
  matcher = [];
}
