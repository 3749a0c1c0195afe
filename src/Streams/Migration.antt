-- ===== src/Streams/Migration.antt =====
-- When a migration deletes its stream.
use tfbuddy.Prelude.{
  ℕ, zero, suc, ◌≡◌, refl, ap, ◌∙◌, sym, ◌⊎◌, inl, inr, true, List, [], ◌∷◌, arith, length,
  Bool-cases, is_empty,
}
use tfbuddy.Text.{Text}
use tfbuddy.Errors.{Error}
use tfbuddy.Effects.{ok}
use tfbuddy.Requests.{fail, query, receive, map_error}
use tfbuddy.Requests.Calls.{Sends, sends, Sends-query, relabel-ok, relabel-calls}
use tfbuddy.Requests.Since.{Since, Seen, Since-All, bind-Since, finally-Since}
use tfbuddy.Streams.Deletions.{
  Deletes, migration_name-longer, read_info-DeletesFrom, wait-DeletesFrom,
  add_or_update-DeletesFrom, time_now-DeletesFrom, Sends-not,
}
use tfbuddy.Streams.Waiting.{
  wait-synced, wait-lags, wait-failed, sources-none, sources-some, sources-failed,
}
use tfbuddy.Streams.{
  JetStream, NatsCall, stream_info, delete_stream, InfoReply, found, not_found, failed, StreamInfo,
  StreamConfig, is_synced, migration_name, read_info, wait_for_sync, wait_for_stream_sources,
  migration_config, migrate_from, time_now, migrate_with, add_or_update_from, add_or_update_stream,
  needs_migration,
}

Reply-cases :
    (r : InfoReply)
    → ((info : StreamInfo) × (r ≡ found info))
      ⊎ ((e : Error) × ((r ≡ not_found e) ⊎ (r ≡ failed e)))
Reply-cases (found info) = inl (info, refl)
Reply-cases (not_found e) = inr (e, inl refl)
Reply-cases (failed e) = inr (e, inr refl)

empty-synced : (lags : List ℕ) → is_empty lags ≡ true → is_synced lags ≡ true
empty-synced [] e = refl
empty-synced (x ∷ lags) e = cc

module _ (js : JetStream) where
  -- A read of a migration stream of the stream, which shows that it has caught up.
  abbrev pub CaughtUp : Text → List NatsCall → NatsCall → Type 0
  CaughtUp name h c =
      (now : ℕ) × (info : StreamInfo) × (c ≡ stream_info (migration_name name now))
      × (js.infos h c ≡ found info)
      × (is_synced info.lags ≡ true)

  module _ (name : Text) where
    -- A loop that ends well has seen the migration stream caught up.
    wait_for_sync-Seen :
        (fuel now : ℕ) (h : List NatsCall) (u : Unit {0})
        → (wait_for_sync js fuel (migration_name name now) h).0 ≡ ok u
        → Seen (CaughtUp name) h (wait_for_sync js fuel (migration_name name now) h).1
    unfolding wait_for_sync fail
    wait_for_sync-Seen zero now h u e = cc
    wait_for_sync-Seen (suc fuel) now h u e =
        elim (Reply-cases (js.infos h (stream_info (migration_name name now)))) [
          | inl (info, r) ↦ elim (Bool-cases (is_synced info.lags)) [
            | inl q ↦
                rw (wait-synced js (migration_name name now) fuel h info r q)
                  (inl (now, info, refl, r, q))
            | inr q ↦ rw (wait-lags js (migration_name name now) fuel h info r q) (
                inr (
                  wait_for_sync-Seen fuel now _ u (
                    sym (ap (λ x. x.0) (wait-lags js (migration_name name now) fuel h info r q))
                    ∙ e)))
          ]
          | inr (x, r) ↦ let f = wait-failed js (migration_name name now) fuel h x r in cc
        ]

    wait-Seen :
        (fuel now : ℕ) (h : List NatsCall) (u : Unit {0})
        → (wait_for_stream_sources js fuel (migration_name name now) h).0 ≡ ok u
        → Seen (CaughtUp name) h (wait_for_stream_sources js fuel (migration_name name now) h).1
    wait-Seen fuel now h u e =
        elim (Reply-cases (js.infos h (stream_info (migration_name name now)))) [
          | inl (info, r) ↦ elim (Bool-cases (is_empty info.lags)) [
            | inl q ↦
                rw (sources-none js (migration_name name now) fuel h info r q)
                  (inl (now, info, refl, r, empty-synced info.lags q))
            | inr q ↦ rw (sources-some js (migration_name name now) fuel h info r q) (
                inr (
                  wait_for_sync-Seen fuel now _ u (
                    sym (ap (λ x. x.0) (sources-some js (migration_name name now) fuel h info r q))
                    ∙ e)))
          ]
          | inr (x, r) ↦ let f = sources-failed js (migration_name name now) fuel h x r in cc
        ]

    checked-Seen :
        (g : Error → Error) (fuel now : ℕ) (h : List NatsCall) (u : Unit {0})
        → (map_error g (wait_for_stream_sources js fuel (migration_name name now)) h).0 ≡ ok u
        → Seen
            (CaughtUp name)
            h
            (map_error g (wait_for_stream_sources js fuel (migration_name name now)) h).1
    unfolding map_error
    checked-Seen g fuel now h u e =
        rw (relabel-calls g (wait_for_stream_sources js fuel (migration_name name now) h))
          (wait-Seen fuel now h u (relabel-ok g _ u e))

    checked-not :
        (g : Error → Error) (fuel : ℕ) (stream : Text)
        → Sends (λ c. ¬ Deletes name c) (map_error g (wait_for_stream_sources js fuel stream))
    checked-not g fuel stream =
        Sends-not name (suc (length name)) (map_error g (wait_for_stream_sources js fuel stream))
          (omega arith) (search (sends, wait-DeletesFrom))

    migrate_from-Since :
        (fuel now : ℕ) (cfg target : StreamConfig) (h : List NatsCall)
        → Since
            (CaughtUp name)
            (Deletes name)
            h
            (migrate_from js fuel name (migration_config name now cfg) target h).1
    unfolding migrate_from migration_config
    migrate_from-Since fuel now cfg target h =
        finally-Since (CaughtUp name) (Deletes name) _ _ h
          (bind-Since (CaughtUp name) (Deletes name) _ _ h
            (checked-not _ fuel (migration_name name now) h)
            (λ u f. inl (checked-Seen _ fuel now h u f)))
          (Sends-not name (length (migration_name name now))
            (query js.done (delete_stream (migration_name name now)))
            (migration_name-longer name now)
            (Sends-query _ js.done (delete_stream (migration_name name now)) (omega arith)))

    migrate_with-Since :
        (depth fuel : ℕ) (target : StreamConfig) (h : List NatsCall)
        → Since
            (CaughtUp name)
            (Deletes name)
            h
            (migrate_with js (add_or_update_stream js depth fuel) fuel name target h).1
    unfolding migrate_with migration_config
    migrate_with-Since depth fuel target h =
        bind-Since (CaughtUp name) (Deletes name) (read_info js name) _ h
          (Sends-not name (suc (length name)) (read_info js name) (omega arith)
            (read_info-DeletesFrom js _ name) h)
          (λ info e. inr (λ k.
            bind-Since (CaughtUp name) (Deletes name) (time_now js) _ k
              (Sends-not name (suc (length name)) (time_now js) (omega arith)
                (time_now-DeletesFrom js _) k)
              (λ now f. inr (λ j.
                bind-Since (CaughtUp name) (Deletes name)
                  (add_or_update_stream js depth fuel (migration_config name now info.config)) _ j
                  (added now info.config j)
                  (λ u g. inr (λ i. migrate_from-Since fuel now info.config target i))))))
      where
        added :
            (now : ℕ) (cfg : StreamConfig)
            → Sends
                (λ c. ¬ Deletes name c)
                (add_or_update_stream js depth fuel (migration_config name now cfg))
        added now cfg =
            Sends-not name (suc (length name))
              (add_or_update_stream js depth fuel (migration_config name now cfg)) (omega arith)
              (add_or_update-DeletesFrom js (suc (length name)) depth fuel
                (migration_config name now cfg) (migration_name-longer name now))

  add_or_update_from-Since :
      (depth fuel : ℕ) (cfg : StreamConfig) (reply : InfoReply) (h : List NatsCall)
      → Since
          (CaughtUp cfg.name)
          (Deletes cfg.name)
          h
          (add_or_update_from js
            (λ target. migrate_with js (add_or_update_stream js depth fuel) fuel target.name target)
            cfg
            reply
            h).1
  unfolding add_or_update_from fail query
  add_or_update_from-Since depth fuel cfg (failed e) h = tt
  add_or_update_from-Since depth fuel cfg (not_found e) h = inr (λ p. cc, tt)
  add_or_update_from-Since depth fuel cfg (found info) h =
      elim (Bool-cases (needs_migration info.config cfg)) [
        | inl e ↦ rw e (migrate_with-Since cfg.name depth fuel cfg h)
        | inr e ↦ rw e (inr (λ p. cc, tt))
      ]

  -- A stream is deleted only after a read of a migration stream of it that shows no lag.
  pub add_or_update_stream-Since :
      (depth fuel : ℕ) (cfg : StreamConfig) (h : List NatsCall)
      → Since (CaughtUp cfg.name) (Deletes cfg.name) h (add_or_update_stream js depth fuel cfg h).1
  unfolding add_or_update_stream fail receive
  add_or_update_stream-Since zero fuel cfg h =
      Since-All (CaughtUp cfg.name) (Deletes cfg.name) [] h tt
  add_or_update_stream-Since (suc depth) fuel cfg h =
      bind-Since (CaughtUp cfg.name) (Deletes cfg.name) (receive js.infos (stream_info cfg.name)) _
        h (λ p. cc, tt) (λ reply e. inr (λ k. add_or_update_from-Since depth fuel cfg reply k))
