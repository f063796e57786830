-- ===== src/Rules/Parser/Words.antt =====
-- The words for triggers and actions are read as what they were written for.
use vaulkeeper.Prelude.{refl, ◌≡◌}
use vaulkeeper.Rules.{
  RuleAction, RuleTriggerKind, compress, cron_trigger, delete_to_quarantine, free_space_below,
  manual, move_to, notify, on_boot, on_external_disk, on_login, permanent_delete, run_shell,
  tag_with,
}
use vaulkeeper.Rules.Parser.{action_from_string, trigger_from_string}
use vaulkeeper.Rules.Writer.{action_to_string, trigger_to_string}

pub trigger_from_string-trigger_to_string :
    (k : RuleTriggerKind) → trigger_from_string (trigger_to_string k) ≡ k
unfolding trigger_from_string trigger_to_string
trigger_from_string-trigger_to_string cron_trigger = refl
trigger_from_string-trigger_to_string free_space_below = refl
trigger_from_string-trigger_to_string on_boot = refl
trigger_from_string-trigger_to_string on_login = refl
trigger_from_string-trigger_to_string on_external_disk = refl
trigger_from_string-trigger_to_string manual = refl

pub action_from_string-action_to_string :
    (a : RuleAction) → action_from_string (action_to_string a) ≡ a
unfolding action_from_string action_to_string
action_from_string-action_to_string delete_to_quarantine = refl
action_from_string-action_to_string permanent_delete = refl
action_from_string-action_to_string compress = refl
action_from_string-action_to_string move_to = refl
action_from_string-action_to_string tag_with = refl
action_from_string-action_to_string run_shell = refl
action_from_string-action_to_string notify = refl
