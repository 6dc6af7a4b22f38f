-- ===== src/Jobs/Rules/Atomic.antt =====
-- What is left of an event after a statement has aborted the transaction.
use omnivore_go.Prelude.{
  Text, codes, text_eq, Bool, true, false, List, [], ◌∷◌, ◌++◌, select, ◌≡◌, refl, if◌then◌else◌,
}
use omnivore_go.Jobs.Rules.Trigger.{
  TriggerRuleData, RuleAction, Statement, set_claims, select_rules, find_item, add_label, archive,
  delete_item, mark_as_read, Session, World, archived, deleted, read, update_item, insert_label,
  exec, add_labels, call_webhook, apply_rule_action, apply_actions, apply_found, apply_rules,
  decode_rules, is_matching, in_transaction, finish, after_claims, auth_trx,
}
use omnivore_go.Jobs.Rules.Unchanged.{Unchanged, auth_trx-Unchanged}

module _ (world : World) where
  exec-aborted :
      (q : Statement) (effect : Session → Session) (s : Session)
      → s.aborted ≡ true
      → (exec world q effect s).1.aborted ≡ true
  unfolding exec
  exec-aborted q effect s e = rw e refl

  add_labels-aborted :
      (item : Text) (ls : List Text) (s : Session)
      → s.aborted ≡ true
      → (add_labels world item ls s).aborted ≡ true
  unfolding add_labels
  add_labels-aborted item [] s e = e
  add_labels-aborted item (l ∷ ls) s e =
      add_labels-aborted item ls (exec world (add_label l) (insert_label item l) s).1
        (exec-aborted (add_label l) (insert_label item l) s e)

  call_webhook-aborted :
      (ps : List Text) (s : Session) → s.aborted ≡ true → (call_webhook world ps s).1.aborted ≡ true
  unfolding call_webhook
  call_webhook-aborted [] s e = e
  call_webhook-aborted (p ∷ ps) s e = e

  either_aborted :
      (b : Bool) (x y : Bool × Session)
      → x.1.aborted ≡ true
      → y.1.aborted ≡ true
      → (if b then x else y).1.aborted ≡ true
  either_aborted true x y h k = h
  either_aborted false x y h k = k

  apply_rule_action-aborted :
      (user item : Text) (a : RuleAction) (s : Session)
      → s.aborted ≡ true
      → (apply_rule_action world user item a s).1.aborted ≡ true
  unfolding apply_rule_action
  apply_rule_action-aborted user item a s e =
      let hook =
        if text_eq a.kind (codes "WEBHOOK") then call_webhook world a.params s else (true, s) in
      let marks = update_item user item (read world.now) in
      let mark =
        if text_eq a.kind (codes "MARK_AS_READ") then exec world mark_as_read marks s else hook in
      let deletes = update_item user item (deleted world.now) in
      let gone =
        if text_eq a.kind (codes "DELETE") then exec world delete_item deletes s else mark in
      let archives = update_item user item (archived world.now) in
      let away = if text_eq a.kind (codes "ARCHIVE") then exec world archive archives s else gone in
      let hook_aborted =
        either_aborted (text_eq a.kind (codes "WEBHOOK")) (call_webhook world a.params s) (true, s)
          (call_webhook-aborted a.params s e) e in
      let mark_aborted =
        either_aborted (text_eq a.kind (codes "MARK_AS_READ")) (exec world mark_as_read marks s)
          hook (exec-aborted mark_as_read marks s e) hook_aborted in
      let gone_aborted =
        either_aborted (text_eq a.kind (codes "DELETE")) (exec world delete_item deletes s) mark
          (exec-aborted delete_item deletes s e) mark_aborted in
      let away_aborted =
        either_aborted (text_eq a.kind (codes "ARCHIVE")) (exec world archive archives s) gone
          (exec-aborted archive archives s e) gone_aborted in
      either_aborted (text_eq a.kind (codes "ADD_LABEL")) (true, add_labels world item a.params s)
        away (add_labels-aborted item a.params s e) away_aborted

  apply_actions-aborted :
      (user item : Text) (acts : List RuleAction) (s : Session)
      → s.aborted ≡ true
      → (apply_actions world user item acts s).aborted ≡ true
  unfolding apply_actions
  apply_actions-aborted user item [] s e = e
  apply_actions-aborted user item (a ∷ acts) s e =
      apply_actions-aborted user item acts (apply_rule_action world user item a s).1
        (apply_rule_action-aborted user item a s e)

  apply_rules-aborted :
      (user item : Text) (rules : List (List RuleAction)) (s : Session)
      → s.aborted ≡ true
      → (apply_rules world user item rules s).aborted ≡ true
  unfolding apply_rules apply_found exec
  apply_rules-aborted user item [] s e = e
  apply_rules-aborted user item (acts ∷ rest) s e =
      apply_rules-aborted user item rest
        (apply_found world user item acts (exec world find_item (λ t. t) s)) (rw e refl)

  apply_rules-append :
      (user item : Text) (earlier later : List (List RuleAction)) (s : Session)
      → apply_rules world user item (earlier ++ later) s
        ≡ apply_rules world user item later (apply_rules world user item earlier s)
  unfolding apply_rules
  apply_rules-append user item [] later s = refl
  apply_rules-append user item (acts ∷ earlier) later s =
      apply_rules-append user item earlier later _

  finish-query :
      (s queried after : Session) (ok : Bool)
      → after.aborted ≡ true
      → (finish world s (if ok then (true, after) else (ok, queried))).0 ≡ false
  unfolding finish
  finish-query s queried after true e = rw e refl
  finish-query s queried after false e = refl

  either_fails :
      (s : Session) (b : Bool) (x y : Bool × Session)
      → x.0 ≡ false
      → y.0 ≡ false
      → (if b then x else y).0 ≡ false
  either_fails s true x y h k = h
  either_fails s false x y h k = k

  -- The session in which the first rule is applied.
  abbrev pub started : Session → Session
  started s = (exec world select_rules (λ t. t) (exec world set_claims (λ t. t) s).1).1

  auth_trx-fails :
      (d : TriggerRuleData) (item : Text) (s : Session) (earlier later : List (List RuleAction))
      → decode_rules world (select (is_matching d) world.rules) ≡ earlier ++ later
      → (apply_rules world d.user_id item earlier (started s)).aborted ≡ true
      → (auth_trx world d item s).0 ≡ false
  unfolding auth_trx after_claims in_transaction
  auth_trx-fails d item s earlier later e h =
      let claimed = exec world set_claims (λ t. t) s in
      let queried = exec world select_rules (λ t. t) claimed.1 in
      let all_rules = decode_rules world (select (is_matching d) world.rules) in
      let after = apply_rules world d.user_id item all_rules queried.1 in
      let ended : after.aborted ≡ true = rw e (
        rw (apply_rules-append d.user_id item earlier later (started s))
          (apply_rules-aborted d.user_id item later _ h)) in
      let done = finish world s (if queried.0 then (true, after) else queried) in
      either_fails s world.begin_fails (false, s) (if claimed.0 then done else (false, s)) refl
        (either_fails s claimed.0 done (false, s) (finish-query s queried.1 after queried.0 ended)
          refl)

  -- As soon as the transaction is aborted after some of the rules, whatever those after them do,
  -- the event ends with an error and both tables are as they were.
  pub auth_trx-aborted :
      (d : TriggerRuleData) (item : Text) (s : Session) (earlier later : List (List RuleAction))
      → decode_rules world (select (is_matching d) world.rules) ≡ earlier ++ later
      → (apply_rules world d.user_id item earlier (started s)).aborted ≡ true
      → ((auth_trx world d item s).0 ≡ false) × Unchanged s (auth_trx world d item s).1
  auth_trx-aborted d item s earlier later e h =
      let fails = auth_trx-fails d item s earlier later e h in
      (fails, auth_trx-Unchanged world d item s fails)
