-- ===== src/Jobs/Rules/Sample.antt =====
-- A user with one rule that archives an item and adds a label that is not there.
use omnivore_go.Prelude.{codes, Bool, true, false, ◌&&◌, List, [], ◌∷◌, none, some}
use omnivore_go.Jobs.Rules.Trigger.{
  TriggerRuleData, RuleAction, ItemRow, Statement, set_claims, select_rules, find_item, add_label,
  archive, delete_item, mark_as_read, Session, World,
}

abbrev pub created : TriggerRuleData
created = record {
  user_id = codes "ann";
  rule_event_type = codes "PAGE_CREATED";
  event_data = codes "i1";
}

abbrev pub archiving : RuleAction
archiving = record { kind = codes "ARCHIVE"; params = [] }

abbrev pub labelling : RuleAction
labelling = record { kind = codes "ADD_LABEL"; params = codes "gone" ∷ [] }

abbrev pub both : List RuleAction
both = archiving ∷ labelling ∷ []

abbrev label_fails : Statement → Bool
label_fails (add_label l) = true
label_fails set_claims = false
label_fails select_rules = false
label_fails find_item = false
label_fails archive = false
label_fails delete_item = false
label_fails mark_as_read = false

-- The rule has the actions given, and a label cannot be added if the Boolean says so.
abbrev pub world_of : Bool → List RuleAction → World
world_of strict acts = record {
  unmarshal_data = λ raw. some created;
  unmarshal_id = λ raw. some raw;
  unmarshal_actions = λ raw. some acts;
  rules =
      record {
        id = codes "r1";
        user_id = codes "ann";
        enabled = true;
        event_types = codes "PAGE_CREATED" ∷ [];
        actions = [];
      }
      ∷ [];
  now = 9;
  answers = λ url s. true;
  begin_fails = false;
  fails = λ q s. strict && label_fails q;
  commit_fails = λ s. false;
}

abbrev pub item_of_ann : ItemRow
item_of_ann = record {
  id = codes "i1";
  user_id = codes "ann";
  state = codes "SUCCEEDED";
  archived_at = none;
  deleted_at = none;
  updated_at = 1;
  reading_progress_bottom_percent = 0;
  reading_progress_top_percent = 0;
  read_at = none;
}

abbrev pub one_item : Session
one_item = record { items = item_of_ann ∷ []; labels = []; aborted = false; calls = [] }
