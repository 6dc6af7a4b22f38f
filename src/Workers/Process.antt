-- ===== src/Workers/Process.antt =====
-- internal/queueprocessor/worker.go and internal/queue/worker.go: one job, from the queue to its
-- end. What the handlers do to the store is a parameter; the slots that bound how many jobs run at
-- a time are not modelled.
use omnivore_go.Prelude.{
  Text, codes, text_eq, Bool, List, [], ◌∷◌, Option, none, some, if◌then◌else◌,
}
use omnivore_go.Bullmq.Redis.{Redis}
use omnivore_go.Bullmq.Queue.{
  Json, RawJob, Pop, popped, empty, error, pop_job, complete_job, fail_job,
}

-- The handlers of the backend worker.
pub data Handler : Type 0 where
  save_page : Handler
  refresh_feed : Handler
  refresh_all_feeds : Handler
  trigger_rule : Handler
  find_thumbnail : Handler
  call_webhook : Handler
  prune_trash : Handler
  expire_folders : Handler
  upload_content : Handler
  sync_read_positions : Handler
  update_labels : Handler
  update_highlight : Handler
  bulk_action : Handler

unfoldable pub lookup_handler : Text → List (Text × Handler) → Option Handler
lookup_handler name [] = none
lookup_handler name ((n, h) ∷ hs) = if text_eq name n then some h else lookup_handler name hs

abbrev pub handlers : List (Text × Handler)
handlers =
    (codes "save-page", save_page)
    ∷ (codes "refresh-feed", refresh_feed)
    ∷ (codes "refresh-all-feeds", refresh_all_feeds)
    ∷ (codes "trigger-rule", trigger_rule)
    ∷ (codes "find-thumbnail", find_thumbnail)
    ∷ (codes "call-webhook", call_webhook)
    ∷ (codes "prune-trash", prune_trash)
    ∷ (codes "expire-folders", expire_folders)
    ∷ (codes "upload-content", upload_content)
    ∷ (codes "sync-read-positions", sync_read_positions)
    ∷ (codes "update-labels", update_labels)
    ∷ (codes "update-highlight", update_highlight)
    ∷ (codes "bulk-action", bulk_action)
    ∷ []

-- The switch on the name: `none` is a name that is skipped, be it known or not.
unfoldable pub handler_of : Text → Option Handler
unfolding lookup_handler
handler_of name = lookup_handler name handlers

module _ (redis : Redis) (json : Json) (q : Text) where
  open redis use {Store}

  -- A job that ended without an error is completed, any other is failed with its message. The
  -- Boolean is whether the queue took that; the workers do not look at it.
  unfoldable pub settle : RawJob → Option Text × Store → Bool × Store
  settle job (none, s) = complete_job redis json q job.id s
  settle job (some reason, s) = fail_job redis json q job.id reason job.opts s

  unfoldable pub run_handler :
      (Handler → Text → Store → Option Text × Store)
      → Option Handler
      → RawJob
      → Store
      → Option Text × Store
  run_handler handle none job s = (none, s)
  run_handler handle (some h) job s = handle h job.payload s

  -- processJob of the backend worker
  unfoldable pub process_job :
      (Handler → Text → Store → Option Text × Store) → RawJob → Store → Bool × Store
  process_job handle job s = settle job (run_handler handle (handler_of job.name) job s)

  unfoldable pub run_fetch :
      {D : Type 0} → (D → Store → Option Text × Store) → Option D → Store → Option Text × Store
  run_fetch fetch none s = (some (codes "unmarshal"), s)
  run_fetch fetch (some d) s = fetch d s

  -- processJob of the content worker: `unmarshal` is none where the data is no JSON of the type,
  -- and `fetch` is ProcessFetchContentJob.
  unfoldable pub process_fetch_job :
      {D : Type 0}
      → (Text → Option D)
      → (D → Store → Option Text × Store)
      → RawJob
      → Store
      → Bool × Store
  process_fetch_job unmarshal fetch job s = settle job (run_fetch fetch (unmarshal job.payload) s)

  -- One round of run: the job that it popped, if any, and what became of it.
  unfoldable pub round_of :
      (RawJob → Store → Bool × Store) → Pop × Store → Option (RawJob × Bool) × Store
  round_of process (popped job, s) = let r = process job s in (some (job, r.0), r.1)
  round_of process (empty, s) = (none, s)
  round_of process (error, s) = (none, s)

  unfoldable pub round : (RawJob → Store → Bool × Store) → Store → Option (RawJob × Bool) × Store
  unfolding round_of
  round process s = round_of process (pop_job redis json q s)
