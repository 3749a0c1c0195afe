-- ===== src/Streams.antt =====
-- pkg/runstream/stream.go: how a stream of NATS is created, updated, or migrated to another retention.
-- The calls of nats.go are requests; that it sleeps between two reads is left out.
pub mod Waiting
pub mod Deletions
pub mod Migration
pub mod Setup
pub mod Health
use tfbuddy.Prelude.{
  ℕ, zero, suc, Bool, true, false, Option, none, some, List, [], ◌∷◌, ◌++◌, if◌then◌else◌, not,
  is_empty, ltb,
}
use tfbuddy.Text.{Text, lit, itoa}
use tfbuddy.Errors.{Error, plain, error_text}
use tfbuddy.Effects.{Res, ok}
use tfbuddy.Requests.{Req, ◌>>=◌, ◌>>◌, pure, fail, query, receive, map_error, finally}

pub data Retention : Type 0 where
  limits interest work_queue : Retention

pub record StreamSource : Type 0 where
  pub name : Text
  pub start_time : Option ℕ

-- What the code sets of a `nats.StreamConfig`; the age is in seconds. The other fields are copied or
-- zero.
pub record StreamConfig : Type 0 where
  pub name : Text
  pub subjects : List Text
  pub retention : Retention
  pub sources : List StreamSource
  pub description : Text
  pub max_msgs : ℕ
  pub max_age : ℕ
  pub replicas : ℕ

-- The sources of an info are given by their lags.
pub record StreamInfo : Type 0 where
  pub config : StreamConfig
  pub lags : List ℕ

pub data NatsCall : Type 0 where
  stream_info : Text → NatsCall
  add_stream : StreamConfig → NatsCall
  update_stream : StreamConfig → NatsCall
  delete_stream : Text → NatsCall

pub data InfoReply : Type 0 where
  found : StreamInfo → InfoReply
  not_found : Error → InfoReply
  failed : Error → InfoReply

-- The replies of NATS to each kind of call, and the clock.
pub record JetStream : Type 0 where
  pub infos : List NatsCall → NatsCall → InfoReply
  pub done : List NatsCall → NatsCall → Res (Unit {0})
  pub clock : List NatsCall → ℕ

abbrev pub same_retention : Retention → Retention → Bool
same_retention limits limits = true
same_retention interest interest = true
same_retention work_queue work_queue = true
same_retention _ _ = false

unfoldable pub needs_migration : StreamConfig → StreamConfig → Bool
needs_migration o_cfg t_cfg = not (same_retention o_cfg.retention t_cfg.retention)

-- `fmt.Errorf("<before> (<name>)<behind>: %v", err)`
abbrev pub failed_with : Text → Text → Text → Error → Error
failed_with before name behind e =
    plain (before ++ lit " (" ++ name ++ lit ")" ++ behind ++ lit ": " ++ error_text e)

unfoldable pub migration_name : Text → ℕ → Text
migration_name name now = name ++ lit "_MIGRATION_" ++ itoa now

unfoldable pub migration_config : Text → ℕ → StreamConfig → StreamConfig
migration_config name now cfg = record cfg {
  name = migration_name name now;
  subjects = [];
  sources = record { name = name; start_time = some now } ∷ [];
}

-- Lags of which the code waits for none: it looks at the first source only.
abbrev pub is_synced : List ℕ → Bool
is_synced [] = true
is_synced (lag ∷ _) = not (ltb 0 lag)

module _ (js : JetStream) where
  -- The error of a failed read is handed on, also that of a stream that is not there.
  unfoldable pub info_of : InfoReply → Req NatsCall StreamInfo
  info_of (found info) = pure info
  info_of (not_found e) = fail e
  info_of (failed e) = fail e

  unfoldable pub read_info : Text → Req NatsCall StreamInfo
  read_info stream = receive js.infos (stream_info stream) >>= info_of

  abbrev could_not_read : Text → Error → Error
  could_not_read stream = failed_with (lit "could not read stream info stream") stream []

  -- The loop of `waitForStreamSources`; the fuel is the number of the reads. A stream that has lost its
  -- sources is a panic in the code, and counts as synced.
  unfoldable pub wait_for_sync : ℕ → Text → Req NatsCall (Unit {0})
  wait_for_sync zero stream = fail (plain (lit "out of fuel"))
  wait_for_sync (suc fuel) stream = map_error (could_not_read stream) (read_info stream) >>= λ info.
      if is_synced info.lags then pure tt else wait_for_sync fuel stream

  unfoldable pub wait_for_stream_sources : ℕ → Text → Req NatsCall (Unit {0})
  wait_for_stream_sources fuel stream =
      map_error (could_not_read stream) (read_info stream) >>= λ info.
      if is_empty info.lags then pure tt else wait_for_sync fuel stream

  -- The steps behind the creation of the replacement; the sources of the target are taken away in any
  -- case.
  unfoldable pub fill_replacement : ℕ → StreamConfig → Req NatsCall (Unit {0})
  fill_replacement fuel target =
      finally (query js.done (update_stream (record target { sources = [] }))) (
        map_error
          (failed_with (lit "unexpected error while checking stream sync status") target.name [])
          (wait_for_stream_sources fuel target.name))

  -- The steps behind the deletion of the original. `mig` is the configuration of the migration stream,
  -- `name` that of the original.
  unfoldable pub replace_original : ℕ → Text → StreamConfig → StreamConfig → Req NatsCall (Unit {0})
  replace_original fuel name mig target =
      map_error (failed_with (lit "could not remove sources") name (lit " for stream migration"))
        (query js.done (update_stream (record mig { sources = [] })))
      >> map_error
          (failed_with (lit "could not create replacement stream") name
            (lit " for stream migration"))
          (query js.done (
            add_stream
              (record target { sources = record { name = mig.name; start_time = none } ∷ [] })))
      >> fill_replacement fuel target

  -- The steps behind the creation of the migration stream, which is deleted in any case.
  unfoldable pub migrate_from : ℕ → Text → StreamConfig → StreamConfig → Req NatsCall (Unit {0})
  migrate_from fuel name mig target = finally (query js.done (delete_stream mig.name)) (
      map_error (failed_with (lit "unexpected error while checking stream sync status") mig.name [])
        (wait_for_stream_sources fuel mig.name)
      >> (map_error
            (failed_with (lit "could not delete original stream") name
              (lit " for stream migration"))
            (query js.done (delete_stream name))
          >> replace_original fuel name mig target))

  unfoldable pub time_now : Req NatsCall ℕ
  time_now h = (ok (js.clock h), [])

  -- `migrateStream`; `add` is `addOrUpdateStream`, by which it creates the migration stream.
  unfoldable pub migrate_with :
      (StreamConfig → Req NatsCall (Unit {0})) → ℕ → Text → StreamConfig → Req NatsCall (Unit {0})
  migrate_with add fuel name target = read_info name >>= λ info. time_now >>= λ now.
      add (migration_config name now info.config)
      >> migrate_from fuel name (migration_config name now info.config) target

  -- What `addOrUpdateStream` does with the info that it reads; `migrate` is `migrateStream`.
  unfoldable pub add_or_update_from :
      (StreamConfig → Req NatsCall (Unit {0})) → StreamConfig → InfoReply → Req NatsCall (Unit {0})
  add_or_update_from migrate cfg (failed e) = fail e
  add_or_update_from migrate cfg (not_found e) = query js.done (add_stream cfg)
  add_or_update_from migrate cfg (found info) =
      if needs_migration info.config cfg then migrate cfg else query js.done (update_stream cfg)

  -- `addOrUpdateStream`; `depth` is how deep migrations are nested: the migration stream of a stream may
  -- be there already, with another retention.
  unfoldable pub add_or_update_stream : ℕ → ℕ → StreamConfig → Req NatsCall (Unit {0})
  unfolding add_or_update_from migrate_with
  add_or_update_stream zero fuel cfg = fail (plain (lit "out of fuel"))
  add_or_update_stream (suc depth) fuel cfg =
      receive js.infos (stream_info cfg.name)
      >>= add_or_update_from
          (λ target. migrate_with (add_or_update_stream depth fuel) fuel target.name target) cfg
