-- ===== src/Jobs/Rules/Unchanged.antt =====
-- What is left of an event whose job ends with an error: the tables as they were.
use omnivore_go.Prelude.{
  Text, text_eq, Bool, true, false, ◌&&◌, not, [], Option, none, some, ◌≡◌, refl, if◌then◌else◌,
}
use mathlib.Core.Bool.{true≢false}
use omnivore_go.Jobs.Rules.Trigger.{
  TriggerRuleData, set_claims, Session, World, exec, in_transaction, rolled_back, finish,
  after_claims, auth_trx, trigger, trigger_decoded, handle_trigger_rule,
}

-- The two tables are as they were.
abbrev pub Unchanged : Session → Session → Type 0
Unchanged s t = (t.items ≡ s.items) × (t.labels ≡ s.labels)

either-Unchanged :
    (s : Session) (b : Bool) (x y : Bool × Session)
    → (x.0 ≡ false → Unchanged s x.1)
    → (y.0 ≡ false → Unchanged s y.1)
    → (if b then x else y).0 ≡ false
    → Unchanged s (if b then x else y).1
either-Unchanged s true x y h k e = h e
either-Unchanged s false x y h k e = k e

module _ (world : World) where
  finish-Unchanged :
      (s : Session) (r : Bool × Session)
      → (finish world s r).0 ≡ false
      → Unchanged s (finish world s r).1
  unfolding finish rolled_back
  finish-Unchanged s (ok, after) e =
      either-Unchanged s (ok && (not after.aborted && not (world.commit_fails after))) (true, after)
        (false, rolled_back world s after) (λ h. absurd (true≢false h)) (λ h. (refl, refl)) e

  after_claims-Unchanged :
      (d : TriggerRuleData) (item : Text) (s : Session) (r : Bool × Session)
      → (after_claims world d item s r).0 ≡ false
      → Unchanged s (after_claims world d item s r).1
  unfolding after_claims
  after_claims-Unchanged d item s (ok, t) e =
      either-Unchanged s ok (finish world s (in_transaction world d item t)) (false, s)
        (finish-Unchanged s (in_transaction world d item t)) (λ h. (refl, refl)) e

  pub auth_trx-Unchanged :
      (d : TriggerRuleData) (item : Text) (s : Session)
      → (auth_trx world d item s).0 ≡ false
      → Unchanged s (auth_trx world d item s).1
  unfolding auth_trx
  auth_trx-Unchanged d item s e =
      either-Unchanged s world.begin_fails (false, s)
        (after_claims world d item s (exec world set_claims (λ t. t) s)) (λ h. (refl, refl))
        (after_claims-Unchanged d item s (exec world set_claims (λ t. t) s)) e

  trigger-Unchanged :
      (d : TriggerRuleData) (id : Option Text) (s : Session)
      → (trigger world d id s).0 ≡ false
      → Unchanged s (trigger world d id s).1
  unfolding trigger
  trigger-Unchanged d none s e = (refl, refl)
  trigger-Unchanged d (some item) s e =
      either-Unchanged s (text_eq item []) (true, s) (auth_trx world d item s) (λ h. (refl, refl))
        (auth_trx-Unchanged d item s) e

  decoded-Unchanged :
      (o : Option TriggerRuleData) (s : Session)
      → (trigger_decoded world o s).0 ≡ false
      → Unchanged s (trigger_decoded world o s).1
  unfolding trigger_decoded
  decoded-Unchanged none s e = (refl, refl)
  decoded-Unchanged (some d) s e = trigger-Unchanged d (world.unmarshal_id d.event_data) s e

  -- An event whose job ends with an error, wherever it fails, leaves both tables as they were.
  pub handle_trigger_rule-Unchanged :
      (raw : Text) (s : Session)
      → (handle_trigger_rule world raw s).0 ≡ false
      → Unchanged s (handle_trigger_rule world raw s).1
  unfolding handle_trigger_rule
  handle_trigger_rule-Unchanged raw s e = decoded-Unchanged (world.unmarshal_data raw) s e
