-- ===== src/Jobs/Rules/Trigger.antt =====
-- internal/jobs/trigger_rule.go: the rules of an event and their actions, in the transaction of
-- internal/db/db.go: AuthTrx.
use omnivore_go.Prelude.{
  ℕ, Text, codes, text_eq, Bool, true, false, ◌||◌, ◌&&◌, not, List, [], ◌∷◌, Option, none, some,
  map, select, if◌then◌else◌,
}

pub record TriggerRuleData : Type 0 where
  pub user_id : Text
  pub rule_event_type : Text
  pub event_data : Text

pub record RuleAction : Type 0 where
  pub kind : Text
  pub params : List Text

-- A row of the table rules
pub record RuleRow : Type 0 where
  pub id : Text
  pub user_id : Text
  pub enabled : Bool
  pub event_types : List Text
  pub actions : Text

-- The columns of library_item that the job reads and writes
pub record ItemRow : Type 0 where
  pub id : Text
  pub user_id : Text
  pub state : Text
  pub archived_at : Option ℕ
  pub deleted_at : Option ℕ
  pub updated_at : ℕ
  pub reading_progress_bottom_percent : ℕ
  pub reading_progress_top_percent : ℕ
  pub read_at : Option ℕ

pub data Statement : Type 0 where
  set_claims : Statement
  select_rules : Statement
  find_item : Statement
  add_label : Text → Statement
  archive : Statement
  delete_item : Statement
  mark_as_read : Statement

-- The tables, the pairs of an item and a label in entity_labels, whether the transaction is
-- aborted, and the webhooks that were called, the last one first
pub record Session : Type 0 where
  pub items : List ItemRow
  pub labels : List (Text × Text)
  pub aborted : Bool
  pub calls : List Text

-- encoding/json, the rules in the table, now(), the answers of the webhooks, and the failures of
-- the database. A failed scan of the rules counts as one of select_rules.
pub record World : Type 0 where
  pub unmarshal_data : Text → Option TriggerRuleData
  -- An id that is missing or not a string is empty.
  pub unmarshal_id : Text → Option Text
  pub unmarshal_actions : Text → Option (List RuleAction)
  pub rules : List RuleRow
  pub now : ℕ
  pub answers : Text → Session → Bool
  pub begin_fails : Bool
  pub fails : Statement → Session → Bool
  pub commit_fails : Session → Bool

unfoldable pub is_of : Text → Text → ItemRow → Bool
is_of user item r = text_eq r.id item && text_eq r.user_id user

unfoldable pub has_item : Text → Text → List ItemRow → Bool
has_item user item [] = false
has_item user item (r ∷ rs) = is_of user item r || has_item user item rs

unfoldable pub is_listed : Text → List Text → Bool
is_listed t [] = false
is_listed t (u ∷ us) = text_eq t u || is_listed t us

unfoldable pub archived : ℕ → ItemRow → ItemRow
archived now r = record r { state = codes "ARCHIVED"; archived_at = some now; updated_at = now }

unfoldable pub deleted : ℕ → ItemRow → ItemRow
deleted now r = record r { state = codes "DELETED"; deleted_at = some now; updated_at = now }

-- The trigger of the table sets the time of every update.
unfoldable pub read : ℕ → ItemRow → ItemRow
read now r = record r {
  reading_progress_bottom_percent = 100;
  reading_progress_top_percent = 100;
  read_at = some now;
  updated_at = now;
}

-- UPDATE ... WHERE id = $1 AND user_id = $2
unfoldable pub update_item : Text → Text → (ItemRow → ItemRow) → Session → Session
update_item user item change s = record s {
  items = map (λ r. if is_of user item r then change r else r) s.items;
}

-- The unique index of entity_labels has the column highlight_id, which is NULL here, so that no
-- two rows are in conflict and DO NOTHING never applies.
unfoldable pub insert_label : Text → Text → Session → Session
insert_label item label s = record s { labels = (item, label) ∷ s.labels }

-- The event's enabled rules of the user
unfoldable pub is_matching : TriggerRuleData → RuleRow → Bool
is_matching d r =
    text_eq r.user_id d.user_id && (r.enabled && is_listed d.rule_event_type r.event_types)

module _ (world : World) where
  open world use {
    unmarshal_data, unmarshal_id, unmarshal_actions, rules, now, answers, begin_fails, fails,
    commit_fails,
  }

  -- A statement that fails aborts the transaction, and in one that is aborted every statement
  -- fails.
  unfoldable pub exec : Statement → (Session → Session) → Session → Bool × Session
  exec q effect s =
      if s.aborted || fails q s then (false, record s { aborted = true }) else (true, effect s)

  -- A failed label is only logged.
  unfoldable pub add_labels : Text → List Text → Session → Session
  add_labels item [] s = s
  add_labels item (l ∷ ls) s = add_labels item ls (exec (add_label l) (insert_label item l) s).1

  unfoldable pub call_webhook : List Text → Session → Bool × Session
  call_webhook [] s = (true, s)
  call_webhook (url ∷ params) s = (answers url s, record s { calls = url ∷ s.calls })

  -- applyRuleAction
  unfoldable pub apply_rule_action : Text → Text → RuleAction → Session → Bool × Session
  apply_rule_action user item a s =
      if text_eq a.kind (codes "ADD_LABEL")
      then (true, add_labels item a.params s)
      else if text_eq a.kind (codes "ARCHIVE")
      then exec archive (update_item user item (archived now)) s
      else if text_eq a.kind (codes "DELETE")
      then exec delete_item (update_item user item (deleted now)) s
      else if text_eq a.kind (codes "MARK_AS_READ")
      then exec mark_as_read (update_item user item (read now)) s
      else if text_eq a.kind (codes "WEBHOOK")
      then call_webhook a.params s
      else (true, s)

  -- A failed action is only logged.
  unfoldable pub apply_actions : Text → Text → List RuleAction → Session → Session
  apply_actions user item [] s = s
  apply_actions user item (a ∷ acts) s =
      apply_actions user item acts (apply_rule_action user item a s).1

  -- The actions of a rule, if the item is found
  unfoldable pub apply_found : Text → Text → List RuleAction → Bool × Session → Session
  apply_found user item acts (ok, s) =
      if ok && has_item user item s.items then apply_actions user item acts s else s

  unfoldable pub apply_rules : Text → Text → List (List RuleAction) → Session → Session
  apply_rules user item [] s = s
  apply_rules user item (acts ∷ rest) s =
      apply_rules user item rest (apply_found user item acts (exec find_item (λ t. t) s))

  -- A rule whose actions are not valid JSON is left out.
  unfoldable pub take_actions :
      Option (List RuleAction) → List (List RuleAction) → List (List RuleAction)
  take_actions none rest = rest
  take_actions (some acts) rest = acts ∷ rest

  unfoldable pub decode_rules : List RuleRow → List (List RuleAction)
  decode_rules [] = []
  decode_rules (r ∷ rs) = take_actions (unmarshal_actions r.actions) (decode_rules rs)

  -- The function that AuthTrx runs
  unfoldable pub in_transaction : TriggerRuleData → Text → Session → Bool × Session
  in_transaction d item s =
      let queried = exec select_rules (λ t. t) s in
      if queried.0
      then (
        true,
        apply_rules d.user_id item (decode_rules (select (is_matching d) rules)) queried.1,
      )
      else queried

  -- What is left when the transaction is rolled back: the webhooks were called all the same.
  unfoldable pub rolled_back : Session → Session → Session
  rolled_back before after = record before { calls = after.calls }

  -- The commit; that of an aborted transaction is an error.
  unfoldable pub finish : Session → Bool × Session → Bool × Session
  finish before (ok, after) =
      if ok && (not after.aborted && not (commit_fails after))
      then (true, after)
      else (false, rolled_back before after)

  unfoldable pub after_claims : TriggerRuleData → Text → Session → Bool × Session → Bool × Session
  after_claims d item before (ok, s) =
      if ok then finish before (in_transaction d item s) else (false, before)

  -- AuthTrx
  unfoldable pub auth_trx : TriggerRuleData → Text → Session → Bool × Session
  auth_trx d item s =
      if begin_fails then (false, s) else after_claims d item s (exec set_claims (λ t. t) s)

  unfoldable pub trigger : TriggerRuleData → Option Text → Session → Bool × Session
  trigger d none s = (false, s)
  trigger d (some item) s = if text_eq item [] then (true, s) else auth_trx d item s

  unfoldable pub trigger_decoded : Option TriggerRuleData → Session → Bool × Session
  trigger_decoded none s = (false, s)
  trigger_decoded (some d) s = trigger d (unmarshal_id d.event_data) s

  -- HandleTriggerRule
  unfoldable pub handle_trigger_rule : Text → Session → Bool × Session
  handle_trigger_rule raw s = trigger_decoded (unmarshal_data raw) s
