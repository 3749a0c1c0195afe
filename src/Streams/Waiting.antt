-- ===== src/Streams/Waiting.antt =====
-- The loop of `waitForStreamSources`, over a stream whose lag goes away after some reads.
use tfbuddy.Prelude.{
  is_empty, ℕ, zero, suc, ◌≡◌, refl, ◌<◌, ◌⊎◌, inl, inr, true, false, List, [], ◌∷◌, ◌++◌, arith,
}
use tfbuddy.Text.{Text}
use tfbuddy.Errors.{Error}
use tfbuddy.Effects.{ok}
use tfbuddy.Effects.Laws.{is_err}
use tfbuddy.Requests.{◌>>=◌, pure, fail, receive, map_error}
use tfbuddy.Streams.{
  JetStream, NatsCall, stream_info, found, not_found, failed, StreamInfo, is_synced, read_info,
  info_of, wait_for_sync, wait_for_stream_sources,
}

module _ (js : JetStream) (stream : Text) where
  -- The rounds of the loop: the last one, one more, and one whose read fails.
  pub wait-synced :
      (fuel : ℕ) (h : List NatsCall) (info : StreamInfo)
      → js.infos h (stream_info stream) ≡ found info
      → is_synced info.lags ≡ true
      → wait_for_sync js (suc fuel) stream h ≡ (ok tt, stream_info stream ∷ [])
  unfolding wait_for_sync read_info info_of ◌>>=◌ pure receive map_error
  wait-synced fuel h info e q = rw (e, q) refl

  pub wait-lags :
      (fuel : ℕ) (h : List NatsCall) (info : StreamInfo)
      → js.infos h (stream_info stream) ≡ found info
      → is_synced info.lags ≡ false
      → wait_for_sync js (suc fuel) stream h ≡ (
        (wait_for_sync js fuel stream (h ++ stream_info stream ∷ [])).0,
        stream_info stream ∷ (wait_for_sync js fuel stream (h ++ stream_info stream ∷ [])).1,
      )
  unfolding wait_for_sync read_info info_of ◌>>=◌ pure receive map_error
  wait-lags fuel h info e q = rw (e, q) refl

  pub wait-failed :
      (fuel : ℕ) (h : List NatsCall) (x : Error)
      → (js.infos h (stream_info stream) ≡ not_found x)
        ⊎ (js.infos h (stream_info stream) ≡ failed x)
      → is_err (wait_for_sync js (suc fuel) stream h).0 ≡ true
  unfolding wait_for_sync read_info info_of ◌>>=◌ pure fail receive map_error
  wait-failed fuel h x (inl e) = rw e refl
  wait-failed fuel h x (inr e) = rw e refl

  -- The read before the loop.
  pub sources-none :
      (fuel : ℕ) (h : List NatsCall) (info : StreamInfo)
      → js.infos h (stream_info stream) ≡ found info
      → is_empty info.lags ≡ true
      → wait_for_stream_sources js fuel stream h ≡ (ok tt, stream_info stream ∷ [])
  unfolding wait_for_stream_sources read_info info_of ◌>>=◌ pure receive map_error
  sources-none fuel h info e q = rw (e, q) refl

  pub sources-some :
      (fuel : ℕ) (h : List NatsCall) (info : StreamInfo)
      → js.infos h (stream_info stream) ≡ found info
      → is_empty info.lags ≡ false
      → wait_for_stream_sources js fuel stream h ≡ (
        (wait_for_sync js fuel stream (h ++ stream_info stream ∷ [])).0,
        stream_info stream ∷ (wait_for_sync js fuel stream (h ++ stream_info stream ∷ [])).1,
      )
  unfolding wait_for_stream_sources read_info info_of ◌>>=◌ pure receive map_error
  sources-some fuel h info e q = rw (e, q) refl

  pub sources-failed :
      (fuel : ℕ) (h : List NatsCall) (x : Error)
      → (js.infos h (stream_info stream) ≡ not_found x)
        ⊎ (js.infos h (stream_info stream) ≡ failed x)
      → is_err (wait_for_stream_sources js fuel stream h).0 ≡ true
  unfolding wait_for_stream_sources read_info info_of ◌>>=◌ pure fail receive map_error
  sources-failed fuel h x (inl e) = rw e refl
  sources-failed fuel h x (inr e) = rw e refl

  -- After `n` reads that show a lag comes one that shows none.
  pub data Syncs : ℕ → List NatsCall → Type 0 where
    synced :
        {h : List NatsCall} (info : StreamInfo)
        → js.infos h (stream_info stream) ≡ found info
        → is_synced info.lags ≡ true
        → Syncs 0 h
    lags :
        {n : ℕ} {h : List NatsCall} (info : StreamInfo)
        → js.infos h (stream_info stream) ≡ found info
        → is_synced info.lags ≡ false
        → Syncs n (h ++ stream_info stream ∷ [])
        → Syncs (suc n) h

  abbrev pub reads : ℕ → List NatsCall
  reads zero = []
  reads (suc n) = stream_info stream ∷ reads n

  -- Where the lag of a stream is gone after some reads, the loop ends without an error, and it has read
  -- the stream once more than there were reads with a lag. The fuel is the number of its reads, or more.
  pub wait_for_sync-Syncs :
      (fuel n : ℕ) (h : List NatsCall)
      → Syncs n h
      → n < fuel
      → wait_for_sync js fuel stream h ≡ (ok tt, reads (suc n))
  wait_for_sync-Syncs zero n h s lt = absurd (omega arith)
  wait_for_sync-Syncs (suc fuel) zero h (synced info e q) lt = wait-synced fuel h info e q
  wait_for_sync-Syncs (suc fuel) (suc n) h (lags info e q s) lt =
      rw (wait-lags fuel h info e q)
        (rw (wait_for_sync-Syncs fuel n (h ++ stream_info stream ∷ []) s (omega arith)) refl)
