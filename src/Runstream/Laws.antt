-- ===== src/Runstream/Laws.antt =====
-- The hand-over of polling tasks, and the retries of the metadata.
use tfbuddy.Prelude.{ℕ, zero, suc, ◌+◌, ◌≡◌, Bool, true, false, [], ◌∷◌, ◌++◌, arith, Any, ltb}
use tfbuddy.Text.{Text}
use tfbuddy.Types.{PollingTask}
use tfbuddy.Runstream.{retry, get_run_meta, wait_for_run_metadata, update, dispatch_task}
use tfbuddy.Effects.{
  Call, World, Io, Res, History, ◌>>=◌, attempt, perform, on_result, pure, all_steps,
  polling_update, publish_polling_task, get_time, metadata_get,
}
use tfbuddy.Requests.Since.{Since}
use tfbuddy.Effects.Laws.{always, is_err}
use tfbuddy.Effects.Order.{
  AtMost, AtMost-bind, AtMost-attempt, AtMost-on_result, AtMost-none, AtMost-last,
}

-- The mark of a task that is being processed is stored: the update is answered without an error.
abbrev pub MarksTask : World → PollingTask → History → Call → Type 0
MarksTask w task h (polling_update id t revision) =
    (id ≡ task.metadata.run_id)
    × (t.processing ≡ true)
    × (revision ≡ task.revision)
    × (is_err (w.numbers h (polling_update id t revision)) ≡ false)
MarksTask w task h _ = ⊥

abbrev pub is_publish : Call → Bool
is_publish (publish_polling_task _) = true
is_publish _ = false

abbrev pub is_metadata_get : Call → Bool
is_metadata_get (metadata_get _) = true
is_metadata_get _ = false

module _ (w : World) (task : PollingTask) where
  -- A task is handed to the stream only behind the update that marks it in its entry of the store, made
  -- at the task's revision, and only if that update has succeeded.
  pub dispatch_task-Since :
      (h : History)
      → Since (MarksTask w task) (λ c. is_publish c ≡ true) h (dispatch_task w task h).1
  unfolding dispatch_task update all_steps
  dispatch_task-Since h = ground arith

  -- The task with its mark, and the update that stores it.
  abbrev pub mark : History → Call
  mark h =
      polling_update task.metadata.run_id
        (record task { processing = true; last_update = w.clock (h ++ get_time ∷ []) })
        task.revision

  -- A task is handed on only when it is not being processed, is due, and the update that marks it has
  -- succeeded.
  pub dispatch_task-publishes :
      (h : History)
      → Any (λ c. is_publish c ≡ true) (dispatch_task w task h).1
      → (task.processing ≡ false)
        × (ltb task.next_poll (w.clock h) ≡ true)
        × (is_err (w.numbers ((h ++ get_time ∷ []) ++ get_time ∷ []) (mark h)) ≡ false)
  unfolding dispatch_task update all_steps
  dispatch_task-publishes h p = ground arith

again-AtMost :
    {A : Type 0} (p : Call → Bool) (m again : Io A) (n : ℕ)
    → AtMost p 1 m
    → AtMost p (suc n) again
    → AtMost p (suc (suc n)) (attempt m >>= on_result (λ e. again) pure)
again-AtMost {A} p m again n one more h =
    let first : AtMost p 1 (attempt m) = AtMost-attempt p 1 m one in
    let next : (r : Res A) → AtMost p (suc n) (on_result (λ e. again) pure r) = λ r.
      AtMost-on_result p (suc n) (λ e. again) pure r (λ e. more)
        (λ a. AtMost-none p (suc n) (pure a) (search always)) in
    let both : AtMost p (1 + suc n) (attempt m >>= on_result (λ e. again) pure) =
      AtMost-bind p 1 (suc n) (attempt m) (on_result (λ e. again) pure) first next in
    omega (arith, both h)

module _ (w : World) where
  retry-AtMost :
      {A : Type 0} (p : Call → Bool) (m : Io A) (retries : ℕ)
      → AtMost p 1 m
      → AtMost p (suc retries) (retry w retries m)
  unfolding retry
  retry-AtMost p m zero one = one
  retry-AtMost {A} p m (suc retries) one =
      again-AtMost p m (retry w retries m) retries one (retry-AtMost {A = A} p m retries one)

  get-AtMost : (run_id : Text) → AtMost is_metadata_get 1 (get_run_meta w run_id)
  unfolding get_run_meta perform
  get-AtMost run_id h = ground arith

  -- The metadata of a run is asked for at most four times.
  pub wait_for_run_metadata-AtMost :
      (run_id : Text) → AtMost is_metadata_get 4 (wait_for_run_metadata w run_id)
  unfolding wait_for_run_metadata get_run_meta
  wait_for_run_metadata-AtMost run_id =
      AtMost-last is_metadata_get 4 (attempt (retry w 3 (get_run_meta w run_id))) _
        (AtMost-attempt is_metadata_get 4 (retry w 3 (get_run_meta w run_id))
          (retry-AtMost is_metadata_get (get_run_meta w run_id) 3 (get-AtMost run_id)))
        (search always)
