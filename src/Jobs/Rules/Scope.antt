-- ===== src/Jobs/Rules/Scope.antt =====
-- What the rules of an event may change.
use mathlib.Core.Path.{subst}
use omnivore_go.Prelude.{
  Text, codes, text_eq, Bool, true, false, ◌||◌, ◌&&◌, not, List, [], ◌∷◌, select, some, ◌≡◌, refl,
  sym, Bool-cases, inl, inr, if◌then◌else◌,
}
use omnivore_go.Prelude.Pairs.{Pairs-refl}
use omnivore_go.Jobs.Rules.Trigger.{
  TriggerRuleData, RuleAction, Statement, set_claims, select_rules, find_item, add_label, archive,
  delete_item, mark_as_read, Session, World, has_item, archived, deleted, read, update_item,
  insert_label, exec, add_labels, call_webhook, apply_rule_action, apply_actions, apply_found,
  apply_rules, decode_rules, is_matching, in_transaction, rolled_back, finish, after_claims,
  auth_trx, trigger, trigger_decoded, handle_trigger_rule,
}
use omnivore_go.Jobs.Rules.Within.{Within, same_tables, Within-trans, update_item-Within}

module _ (user item : Text) (world : World) where
  exec-Within :
      (q : Statement) (effect : Session → Session) (s : Session)
      → Within user item s (effect s)
      → Within user item s (exec world q effect s).1
  unfolding exec
  exec-Within q effect s h = elim (Bool-cases (s.aborted || world.fails q s)) [
    | inl e ↦ rw e (same_tables user item s (record s { aborted = true }) refl refl)
    | inr e ↦ rw e h
  ]

  add_labels-Within :
      (ls : List Text) (s : Session) → Within user item s (add_labels world item ls s)
  unfolding add_labels insert_label
  add_labels-Within [] s = same_tables user item s s refl refl
  add_labels-Within (l ∷ ls) s =
      let next = (exec world (add_label l) (insert_label item l) s).1 in
      Within-trans user item s next (add_labels world item ls next)
        (exec-Within (add_label l) (insert_label item l) s
          (Pairs-refl _ (λ r. inl refl) s.items, ((item, l) ∷ [], refl, (refl, tt))))
        (add_labels-Within ls next)

  call_webhook-Within :
      (ps : List Text) (s : Session) → Within user item s (call_webhook world ps s).1
  unfolding call_webhook
  call_webhook-Within [] s = same_tables user item s s refl refl
  call_webhook-Within (p ∷ ps) s =
      same_tables user item s (record s { calls = p ∷ s.calls }) refl refl

  archive-Within :
      (s : Session)
      → Within user item s (exec world archive (update_item user item (archived world.now)) s).1
  unfolding archived
  archive-Within s = exec-Within archive _ s (update_item-Within user item _ (λ r. (refl, refl)) s)

  delete-Within :
      (s : Session)
      → Within user item s (exec world delete_item (update_item user item (deleted world.now)) s).1
  unfolding deleted
  delete-Within s =
      exec-Within delete_item _ s (update_item-Within user item _ (λ r. (refl, refl)) s)

  read-Within :
      (s : Session)
      → Within user item s (exec world mark_as_read (update_item user item (read world.now)) s).1
  unfolding read
  read-Within s =
      exec-Within mark_as_read _ s (update_item-Within user item _ (λ r. (refl, refl)) s)

  either_way :
      (s : Session) (b : Bool) (x y : Bool × Session)
      → Within user item s x.1
      → Within user item s y.1
      → Within user item s (if b then x else y).1
  either_way s true x y h k = h
  either_way s false x y h k = k

  apply_rule_action-Within :
      (a : RuleAction) (s : Session) → Within user item s (apply_rule_action world user item a s).1
  unfolding apply_rule_action
  apply_rule_action-Within a s =
      either_way s (text_eq a.kind (codes "ADD_LABEL")) (true, add_labels world item a.params s) _
        (add_labels-Within a.params s)
        (either_way s (text_eq a.kind (codes "ARCHIVE")) _ _ (archive-Within s) (
          either_way s (text_eq a.kind (codes "DELETE")) _ _ (delete-Within s) (
            either_way s (text_eq a.kind (codes "MARK_AS_READ")) _ _ (read-Within s) (
              either_way s (text_eq a.kind (codes "WEBHOOK")) (call_webhook world a.params s)
                (true, s) (call_webhook-Within a.params s) (same_tables user item s s refl refl)))))

  apply_actions-Within :
      (acts : List RuleAction) (s : Session)
      → Within user item s (apply_actions world user item acts s)
  unfolding apply_actions
  apply_actions-Within [] s = same_tables user item s s refl refl
  apply_actions-Within (a ∷ acts) s =
      let next = (apply_rule_action world user item a s).1 in
      Within-trans user item s next (apply_actions world user item acts next)
        (apply_rule_action-Within a s) (apply_actions-Within acts next)

  apply_found-Within :
      (acts : List RuleAction) (s : Session) (r : Bool × Session)
      → Within user item s r.1
      → Within user item s (apply_found world user item acts r)
  unfolding apply_found
  apply_found-Within acts s (ok, t) h = elim (Bool-cases (ok && has_item user item t.items)) [
    | inl e ↦ rw e (
        Within-trans user item s t (apply_actions world user item acts t) h
          (apply_actions-Within acts t))
    | inr e ↦ rw e h
  ]

  apply_rules-Within :
      (rules : List (List RuleAction)) (s : Session)
      → Within user item s (apply_rules world user item rules s)
  unfolding apply_rules
  apply_rules-Within [] s = same_tables user item s s refl refl
  apply_rules-Within (acts ∷ rest) s =
      let next = apply_found world user item acts (exec world find_item (λ t. t) s) in
      Within-trans user item s next (apply_rules world user item rest next)
        (apply_found-Within acts s (exec world find_item (λ t. t) s)
          (exec-Within find_item (λ t. t) s (same_tables user item s s refl refl)))
        (apply_rules-Within rest next)

  in_transaction-Within :
      (d : TriggerRuleData) (s : Session)
      → d.user_id ≡ user
      → Within user item s (in_transaction world d item s).1
  unfolding in_transaction
  in_transaction-Within d s e =
      let start = (exec world select_rules (λ t. t) s).1 in
      let found = decode_rules world (select (is_matching d) world.rules) in
      let queried = exec-Within select_rules (λ t. t) s (same_tables user item s s refl refl) in
      either_way s (exec world select_rules (λ t. t) s).0
        (true, apply_rules world d.user_id item found start) (exec world select_rules (λ t. t) s)
        (subst (λ u. Within user item s (apply_rules world u item found start)) (sym e)
          (Within-trans user item s start (apply_rules world user item found start) queried
            (apply_rules-Within found start)))
        queried

  finish-Within :
      (s t : Session) (r : Bool × Session)
      → t.items ≡ s.items
      → t.labels ≡ s.labels
      → Within user item s r.1
      → Within user item s (finish world t r).1
  unfolding finish rolled_back
  finish-Within s t (ok, after) e f h =
      either_way s (ok && (not after.aborted && not (world.commit_fails after))) (true, after)
        (false, rolled_back world t after) h
        (same_tables user item s (rolled_back world t after) e f)

  after_claims-Within :
      (d : TriggerRuleData) (s : Session) (r : Bool × Session)
      → d.user_id ≡ user
      → Within user item s r.1
      → Within user item s (after_claims world d item s r).1
  unfolding after_claims
  after_claims-Within d s (ok, t) e h =
      either_way s ok (finish world s (in_transaction world d item t)) (false, s)
        (finish-Within s s (in_transaction world d item t) refl refl (
          Within-trans user item s t (in_transaction world d item t).1 h
            (in_transaction-Within d t e)))
        (same_tables user item s s refl refl)

  auth_trx-Within :
      (d : TriggerRuleData) (s : Session)
      → d.user_id ≡ user
      → Within user item s (auth_trx world d item s).1
  unfolding auth_trx
  auth_trx-Within d s e =
      either_way s world.begin_fails (false, s)
        (after_claims world d item s (exec world set_claims (λ t. t) s))
        (same_tables user item s s refl refl)
        (after_claims-Within d s (exec world set_claims (λ t. t) s) e
          (exec-Within set_claims (λ t. t) s (same_tables user item s s refl refl)))

-- An event changes only rows of the item and the user that it names, keeps their ids, and only adds
-- labels, to that item.
pub handle_trigger_rule-Within :
    (world : World) (raw item : Text) (d : TriggerRuleData) (s : Session)
    → world.unmarshal_data raw ≡ some d
    → world.unmarshal_id d.event_data ≡ some item
    → Within d.user_id item s (handle_trigger_rule world raw s).1
unfolding handle_trigger_rule trigger_decoded trigger
handle_trigger_rule-Within world raw item d s decoded identified =
    rw (decoded, identified)
      (either_way d.user_id item world s (text_eq item []) (true, s) (auth_trx world d item s)
        (same_tables d.user_id item s s refl refl) (auth_trx-Within d.user_id item world d s refl))
