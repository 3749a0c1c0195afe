-- ===== src/Streams/Deletions.antt =====
-- Which streams a migration deletes: none but the stream itself and its migration streams.
use tfbuddy.Prelude.{
  ℕ, zero, suc, ◌≡◌, subst, ◌≤◌, ◌<◌, List, [], ◌∷◌, ◌++◌, arith, All, length, length-append,
}
use tfbuddy.Text.{Text, lit, itoa}
use tfbuddy.Requests.{Req, receive}
use tfbuddy.Requests.Calls.{Sends, sends, Sends-bind, Sends-receive}
use tfbuddy.Streams.{
  JetStream, NatsCall, stream_info, delete_stream, InfoReply, found, not_found, failed,
  StreamConfig, migration_name, read_info, info_of, wait_for_sync, wait_for_stream_sources,
  migration_config, replace_original, fill_replacement, migrate_from, time_now, migrate_with,
  add_or_update_from, add_or_update_stream,
}

-- A call deletes no stream but one whose name has `n` characters at least.
abbrev pub DeletesFrom : ℕ → NatsCall → Type 0
DeletesFrom n (delete_stream x) = n ≤ length x
DeletesFrom n _ = Unit

abbrev pub Deletes : Text → NatsCall → Type 0
Deletes name c = c ≡ delete_stream name

DeletesFrom-not :
    (name : Text) (n : ℕ) (c : NatsCall) → length name < n → DeletesFrom n c → ¬ Deletes name c
DeletesFrom-not name n c lt d e = absurd (omega (arith, subst (DeletesFrom n) e d))

weaken-not :
    (name : Text) (n : ℕ) (cs : List NatsCall)
    → length name < n
    → All (DeletesFrom n) cs
    → All (λ c. ¬ Deletes name c) cs
weaken-not name n [] lt q = tt
weaken-not name n (c ∷ cs) lt (d, q) = (DeletesFrom-not name n c lt d, weaken-not name n cs lt q)

longer_text : (s t u : Text) → 0 < length t → length s < length ((s ++ t) ++ u)
longer_text s t u lt = omega (arith, length-append (s ++ t) u, length-append s t)

mark_not_empty : 0 < length (lit "_MIGRATION_")
unfolding lit
mark_not_empty = omega arith

pub migration_name-longer : (name : Text) (now : ℕ) → length name < length (migration_name name now)
unfolding migration_name
migration_name-longer name now = longer_text name (lit "_MIGRATION_") (itoa now) mark_not_empty

module _ (js : JetStream) (n : ℕ) where
  info_of-DeletesFrom : (reply : InfoReply) → Sends (DeletesFrom n) (info_of js reply)
  unfolding info_of
  info_of-DeletesFrom (found info) = search sends
  info_of-DeletesFrom (not_found e) = search sends
  info_of-DeletesFrom (failed e) = search sends

  pub read_info-DeletesFrom : (stream : Text) → Sends (DeletesFrom n) (read_info js stream)
  unfolding read_info
  read_info-DeletesFrom stream = search (sends, info_of-DeletesFrom)

  wait_for_sync-DeletesFrom :
      (fuel : ℕ) (stream : Text) → Sends (DeletesFrom n) (wait_for_sync js fuel stream)
  unfolding wait_for_sync
  wait_for_sync-DeletesFrom zero stream = search sends
  wait_for_sync-DeletesFrom (suc fuel) stream =
      search (sends, read_info-DeletesFrom, wait_for_sync-DeletesFrom fuel) depth 9

  pub wait-DeletesFrom :
      (fuel : ℕ) (stream : Text) → Sends (DeletesFrom n) (wait_for_stream_sources js fuel stream)
  unfolding wait_for_stream_sources
  wait-DeletesFrom fuel stream =
      search (sends, read_info-DeletesFrom, wait_for_sync-DeletesFrom) depth 9

  replace_original-DeletesFrom :
      (fuel : ℕ) (name : Text) (mig target : StreamConfig)
      → Sends (DeletesFrom n) (replace_original js fuel name mig target)
  unfolding replace_original fill_replacement
  replace_original-DeletesFrom fuel name mig target = search (sends, wait-DeletesFrom) depth 12

  migrate_from-DeletesFrom :
      (fuel : ℕ) (name : Text) (mig target : StreamConfig)
      → n ≤ length name
      → n ≤ length mig.name
      → Sends (DeletesFrom n) (migrate_from js fuel name mig target)
  unfolding migrate_from
  migrate_from-DeletesFrom fuel name mig target le less =
      search (sends, wait-DeletesFrom, replace_original-DeletesFrom, le, less) depth 12

  longer : (name : Text) (now : ℕ) → n ≤ length name → n ≤ length (migration_name name now)
  longer name now le = omega (arith, migration_name-longer name now)

  pub time_now-DeletesFrom : Sends (DeletesFrom n) (time_now js)
  unfolding time_now
  time_now-DeletesFrom h = tt

  migrate_with-DeletesFrom :
      (add : StreamConfig → Req NatsCall (Unit {0})) (fuel : ℕ) (name : Text)
      (target : StreamConfig)
      → n ≤ length name
      → ((cfg : StreamConfig) → n ≤ length cfg.name → Sends (DeletesFrom n) (add cfg))
      → Sends (DeletesFrom n) (migrate_with js add fuel name target)
  unfolding migrate_with migration_config
  migrate_with-DeletesFrom add fuel name target le adds =
      search
        (
          sends, read_info-DeletesFrom, time_now-DeletesFrom, adds, longer, le,
          migrate_from-DeletesFrom,
        )
        depth 12

  add_or_update_from-DeletesFrom :
      (migrate : StreamConfig → Req NatsCall (Unit {0})) (cfg : StreamConfig) (reply : InfoReply)
      → Sends (DeletesFrom n) (migrate cfg)
      → Sends (DeletesFrom n) (add_or_update_from js migrate cfg reply)
  unfolding add_or_update_from
  add_or_update_from-DeletesFrom migrate cfg (failed e) q = search sends
  add_or_update_from-DeletesFrom migrate cfg (not_found e) q = search sends
  add_or_update_from-DeletesFrom migrate cfg (found info) q = search (sends, q)

  -- Streams whose names are shorter are not deleted.
  pub add_or_update-DeletesFrom :
      (depth fuel : ℕ) (cfg : StreamConfig)
      → n ≤ length cfg.name
      → Sends (DeletesFrom n) (add_or_update_stream js depth fuel cfg)
  unfolding add_or_update_stream
  add_or_update-DeletesFrom zero fuel cfg le = search sends
  add_or_update-DeletesFrom (suc depth) fuel cfg le =
      Sends-bind (DeletesFrom n) (receive js.infos (stream_info cfg.name)) _
        (Sends-receive (DeletesFrom n) js.infos (stream_info cfg.name) tt)
        (λ reply.
          add_or_update_from-DeletesFrom
            (λ target. migrate_with js (add_or_update_stream js depth fuel) fuel target.name target)
            cfg reply
            (migrate_with-DeletesFrom (add_or_update_stream js depth fuel) fuel cfg.name cfg le
              (add_or_update-DeletesFrom depth fuel)))

module _ (name : Text) where
  pub Sends-not :
      {A : Type 0} (n : ℕ) (m : Req NatsCall A)
      → length name < n
      → Sends (DeletesFrom n) m
      → Sends (λ c. ¬ Deletes name c) m
  Sends-not n m lt q h = weaken-not name n (m h).1 lt (q h)
