-- ===== src/Workers/Tests.antt =====
-- Jobs that the workers process on a small server, and the theorems at concrete inputs.
use omnivore_go.Prelude.{Text, codes, text_eq, true, [], Option, none, some, ◌≡◌, refl}
use omnivore_go.Prelude.Int.{format_nat, digits, atoi, read_digits, all_digits}
use omnivore_go.Bullmq.Keys.{key, queue_key}
use omnivore_go.Bullmq.Redis.{
  View, apply, apply_all, hash_get, hash_set, hash_set_all, unsnoc, pop_wait, pop_prioritized,
  move_to_active, present,
}
use omnivore_go.Bullmq.Queue.{
  RawJob, AddJobOpts, choose_id, choose_custom, job_fields, enqueue_command, job_commands,
  store_payload, store_chosen, add_job, field_or, opts_of, attempts_of, job_of, get_job, pop_reply,
  pop_job, complete_job, fail_job, fail_counted,
}
use omnivore_go.Bullmq.Queue.Sample.{server, encoding, nothing}
use omnivore_go.Workers.Process.{
  Handler, bulk_action, settle, run_handler, handler_of, lookup_handler, process_job, round,
  round_of, run_fetch, process_fetch_job,
}
use omnivore_go.Workers.Settled.{IsSettled, process_job-IsSettled}

abbrev q : Text
q = codes "omnivore-backend-queue"

abbrev job : RawJob
job = record {
  id = codes "7";
  name = codes "bulk-action";
  payload = codes "{}";
  opts = record { attempts = 1; priority = 0; backoff = record { type = []; delay = 0 } };
  attempts_made = 0;
}

dispatched : handler_of (codes "bulk-action") ≡ some bulk_action
unfolding handler_of lookup_handler text_eq
dispatched = refl

abbrev request : AddJobOpts
request = record {
  name = codes "bulk-action";
  payload = some (codes "{}");
  opts = record { attempts = 1; priority = 0; backoff = record { type = []; delay = 0 } };
  job_id = codes "7";
}

abbrev refuse : Handler → Text → View → Option Text × View
refuse h payload v = (some (codes "refused"), v)

abbrev behind : View
behind = (process_job server encoding q refuse job nothing).1

processed_job : process_job server encoding q refuse job nothing ≡ (true, behind)
unfolding process_job run_handler handler_of lookup_handler text_eq settle fail_job fail_counted
processed_job = refl

process_job-IsSettled_example : IsSettled server encoding q (codes "7") behind
process_job-IsSettled_example =
    process_job-IsSettled server encoding q refuse job nothing behind processed_job

abbrev fetch : Text → View → Option Text × View
fetch d v = (none, v)

abbrev fetched : View
fetched = (process_fetch_job server encoding q (λ t. some t) fetch job nothing).1

processed_fetch :
    process_fetch_job server encoding q (λ t. some t) fetch job nothing ≡ (true, fetched)
unfolding process_fetch_job run_fetch settle complete_job
processed_fetch = refl

abbrev queued : View
queued = (add_job server encoding q request nothing).1

abbrev one_round : View
one_round = (round server encoding q (process_job server encoding q refuse) queued).1

ran :
    round server encoding q (process_job server encoding q refuse) queued
    ≡ (some (job, true), one_round)
unfolding round round_of process_job run_handler handler_of lookup_handler settle fail_job
    fail_counted add_job choose_id choose_custom store_chosen store_payload text_eq present
    job_commands enqueue_command job_fields apply_all apply hash_set_all hash_set pop_job pop_reply
    get_job job_of field_or opts_of attempts_of atoi read_digits all_digits move_to_active
    pop_prioritized pop_wait unsnoc key queue_key hash_get format_nat digits
ran = refl
