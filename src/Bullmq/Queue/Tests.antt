-- ===== src/Bullmq/Queue/Tests.antt =====
-- Runs of the queue over a small server, and the theorems at concrete inputs.
use omnivore_go.Prelude.{◌^◌, ◌*◌, Text, codes, text_eq, true, some, ◌≡◌, refl, arith, ltb}
use omnivore_go.Prelude.Int.{pos, format_nat, digits, atoi, read_digits, all_digits}
use omnivore_go.Bullmq.Keys.{key, queue_key}
use omnivore_go.Bullmq.Redis.{
  View, apply, apply_all, hash_get, hash_set, hash_set_all, unsnoc, pop_wait, pop_prioritized,
  move_to_active, present,
}
use omnivore_go.Bullmq.Queue.{
  AddJobOpts, RawJob, JobOpts, popped, exponential_delay, choose_id, choose_custom, job_fields,
  enqueue_command, job_commands, store_payload, store_chosen, add_job, field_or, opts_of,
  attempts_of, job_of, get_job, pop_reply, pop_job, complete_job, fail_counted, fail_job,
}
use omnivore_go.Bullmq.Queue.Delay.{exponential_delay-pow}
use omnivore_go.Bullmq.Queue.Effects.{Moves, pop_job-Moves}
use omnivore_go.Bullmq.Queue.RoundTrip.{Carries, pop_job-add_job}
use omnivore_go.Bullmq.Queue.Finish.{Fails, fail_job-Fails, failing_attempt}
use omnivore_go.Bullmq.Queue.Sample.{server, encoding, nothing, number_in}

abbrev rss : Text
rss = codes "rss"

abbrev three_attempts : JobOpts
three_attempts = record {
  attempts = 3;
  priority = 0;
  backoff = record { type = codes "exponential"; delay = 1000 };
}

abbrev refresh : AddJobOpts
refresh = record {
  name = codes "refresh";
  payload = some (codes "{}");
  opts = three_attempts;
  job_id = codes "f1";
}

abbrev job : RawJob
job = record {
  id = codes "f1";
  name = codes "refresh";
  payload = codes "{}";
  opts = three_attempts;
  attempts_made = 0;
}

abbrev v1 : View
v1 = (add_job server encoding rss refresh nothing).1

abbrev v2 : View
v2 = (pop_job server encoding rss v1).1

abbrev v3 : View
v3 = (fail_job server encoding rss (codes "f1") (codes "timeout") three_attempts v2).1

exponential_delay-pow_example : exponential_delay (pos 1000) 3 ≡ pos (1000 * 2 ^ 3)
exponential_delay-pow_example = exponential_delay-pow 1000 3 (omega arith)

added : add_job server encoding rss refresh nothing ≡ (true, v1)
unfolding add_job choose_id choose_custom store_chosen store_payload text_eq present
added = refl

popped_job : pop_job server encoding rss v1 ≡ (popped job, v2)
unfolding add_job choose_id choose_custom store_chosen store_payload text_eq present job_commands
    enqueue_command job_fields apply_all apply hash_set_all hash_set pop_job pop_reply get_job
    job_of field_or opts_of attempts_of atoi read_digits all_digits move_to_active pop_prioritized
    pop_wait unsnoc key queue_key hash_get format_nat digits
popped_job = refl

pop_job-Moves_example : Moves rss (codes "f1") v1 v2
pop_job-Moves_example = pop_job-Moves server encoding rss v1 v2 job popped_job

pop_job-add_job_example : Carries server encoding rss job refresh
unfolding add_job choose_id choose_custom store_chosen store_payload text_eq present job_commands
    enqueue_command job_fields apply_all apply hash_set_all hash_set pop_job pop_reply get_job
    job_of field_or opts_of attempts_of atoi read_digits all_digits move_to_active pop_prioritized
    pop_wait unsnoc key queue_key hash_get format_nat digits
pop_job-add_job_example =
    pop_job-add_job server encoding rss refresh nothing v1 v2 job refl refl refl added popped_job

completed :
    complete_job server encoding rss (codes "f1") v2
    ≡ (true, (complete_job server encoding rss (codes "f1") v2).1)
unfolding complete_job
completed = refl

failed_once :
    fail_job server encoding rss (codes "f1") (codes "timeout") three_attempts v2 ≡ (true, v3)
unfolding fail_job fail_counted
failed_once = refl

first_attempt : failing_attempt server encoding rss (codes "f1") v2 ≡ 1
unfolding add_job choose_id choose_custom store_chosen store_payload text_eq present job_commands
    enqueue_command job_fields apply_all apply hash_set_all hash_set pop_job pop_reply get_job
    job_of field_or opts_of attempts_of atoi read_digits all_digits move_to_active pop_prioritized
    pop_wait unsnoc key queue_key hash_get format_nat digits number_in
first_attempt = refl

fail_job-Fails_example :
    Fails server encoding rss
      (ltb (failing_attempt server encoding rss (codes "f1") v2) 3)
      (codes "f1")
      three_attempts
      (failing_attempt server encoding rss (codes "f1") v2)
      1000
      v2
      v3
fail_job-Fails_example =
    fail_job-Fails server encoding rss (codes "f1") (codes "timeout") three_attempts v2 v3
      failed_once
