-- ===== src/Jobs/Rules/Tests.antt =====
-- The theorems at concrete inputs.
use omnivore_go.Prelude.{codes, select, text_eq, true, false, [], ◌∷◌, ◌++◌, some, ◌≡◌, refl}
use omnivore_go.Jobs.Rules.Trigger.{
  decode_rules, take_actions, is_matching, is_listed, exec, add_labels, insert_label, update_item,
  is_of, has_item, archived, apply_rule_action, apply_actions, apply_found, apply_rules,
  in_transaction, rolled_back, finish, after_claims, auth_trx, trigger, trigger_decoded,
  handle_trigger_rule,
}
use omnivore_go.Jobs.Rules.Within.{Within}
use omnivore_go.Jobs.Rules.Scope.{handle_trigger_rule-Within}
use omnivore_go.Jobs.Rules.Unchanged.{Unchanged}
use omnivore_go.Jobs.Rules.Atomic.{started, auth_trx-aborted}
use omnivore_go.Jobs.Rules.Sample.{created, both, world_of, item_of_ann, one_item}

archived_and_labelled : handle_trigger_rule (world_of false both) [] one_item ≡ (
  true,
  record {
    items =
        record item_of_ann { state = codes "ARCHIVED"; archived_at = some 9; updated_at = 9 } ∷ [];
    labels = (codes "i1", codes "gone") ∷ [];
    aborted = false;
    calls = [];
  },
)
unfolding handle_trigger_rule trigger_decoded trigger auth_trx after_claims finish in_transaction
    decode_rules take_actions is_matching is_listed exec add_labels insert_label update_item is_of
    has_item archived apply_rule_action apply_actions apply_found apply_rules text_eq
archived_and_labelled = refl

nothing_archived : handle_trigger_rule (world_of true both) [] one_item ≡ (false, one_item)
unfolding handle_trigger_rule trigger_decoded trigger auth_trx after_claims finish rolled_back
    in_transaction decode_rules take_actions is_matching is_listed exec add_labels insert_label
    update_item is_of has_item archived apply_rule_action apply_actions apply_found apply_rules
    text_eq
nothing_archived = refl

handle_trigger_rule-Within_example :
    Within
      (codes "ann")
      (codes "i1")
      one_item
      (handle_trigger_rule (world_of false both) [] one_item).1
handle_trigger_rule-Within_example =
    handle_trigger_rule-Within (world_of false both) [] (codes "i1") created one_item refl refl

found_rule :
    decode_rules (world_of true both) (select (is_matching created) (world_of true both).rules)
    ≡ (both ∷ []) ++ []
unfolding decode_rules take_actions is_matching is_listed text_eq
found_rule = refl

aborted_by_label :
    (apply_rules
      (world_of true both)
      (codes "ann")
      (codes "i1")
      (both ∷ [])
      (started (world_of true both) one_item)).aborted
    ≡ true
unfolding exec add_labels insert_label update_item is_of has_item archived apply_rule_action
    apply_actions apply_found apply_rules text_eq
aborted_by_label = refl

auth_trx-aborted_example :
    ((auth_trx (world_of true both) created (codes "i1") one_item).0 ≡ false)
    × Unchanged one_item (auth_trx (world_of true both) created (codes "i1") one_item).1
auth_trx-aborted_example =
    auth_trx-aborted (world_of true both) created (codes "i1") one_item (both ∷ []) [] found_rule
      aborted_by_label
