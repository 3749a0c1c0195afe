-- ===== src/Trigger/TagSteps.antt =====
-- The steps of `triggerRunForWorkspace` that read and write lock tags, and what they leave there.
use tfbuddy.Prelude.{
  ℕ, ◌≡◌, sym, ap, subst, ◌⊎◌, inl, inr, Option, none, some, List, [], ◌∷◌, ◌++◌, if◌then◌else◌,
  is_empty, any, keep,
}
use tfbuddy.Text.{Text, text_eq, contains, itoa}
use tfbuddy.Errors.{Error}
use tfbuddy.Text.Laws.{text_eq_refl}
use tfbuddy.Types.{Workspace, DetailedMr}
use tfbuddy.Locks.{tf_prefix}
use tfbuddy.Locks.Laws.{lock_tag}
use tfbuddy.TfcClient
use tfbuddy.Trigger.{TfcTrigger}
use tfbuddy.Trigger.Runs.{get_locking_mr}
use tfbuddy.Trigger.Tags.{KeepsTags, replay, replay-append, is_missing}
use tfbuddy.Trigger.Owner.{
  matched, OwnedBy, locker, find_locking_mr-OwnedBy, add-OwnedBy, add-OwnedBy_self, remove-OwnedBy,
}
use tfbuddy.Trigger.Ends.{Post, tags_at, Ends, Ends-bind}
use tfbuddy.Effects.{
  Call, World, Res, ok, err, History, pure, fail, perform, attempt, all_steps, get_merge_request,
  workspaces_add_tags, workspaces_remove_tags, workspaces_list_tags,
}
use tfbuddy.Effects.Laws.{Res-cases}

module _ (w : World) (t : TfcTrigger) (ws : Workspace) (tags : List Text)
    (keeps : KeepsTags w ws.id tags) where
  abbrev pub now_at : History → List Text
  now_at h = tags_at w.units ws.id tags h

  later : (h : History) (cs : List Call) → now_at (h ++ cs) ≡ replay w.units ws.id h (now_at h) cs
  later h cs = replay-append w.units ws.id [] tags h cs

  -- The lock is free, or this MR's.
  abbrev pub IsReady : List Text → Type 0
  IsReady ts = OwnedBy none ts ⊎ OwnedBy (some t.cfg.merge_request_iid) ts

  pub get_locking_mr-Ends :
      (o : Option ℕ) (E : List Text → Type 0) (h : History)
      → OwnedBy o (now_at h)
      → Ends w.units ws.id tags
          (λ mr ts. OwnedBy o ts × (mr ≡ locker o t.cfg.merge_request_iid))
          E
          (get_locking_mr w t ws.id h)
          h
  unfolding get_locking_mr TfcClient.get_tags_by_query all_steps
  get_locking_mr-Ends o E h own = rw (keeps h tf_prefix) (
    subst (OwnedBy o) (sym (later h (workspaces_list_tags ws.id tf_prefix ∷ []))) own,
    find_locking_mr-OwnedBy o t.cfg.merge_request_iid (now_at h) own,
  )

  unit-Ends :
      (P E : List Text → Type 0) (h : History) (c : Call)
      → ((u : Unit {0}) → w.units h c ≡ ok u → P (replay w.units ws.id h (now_at h) (c ∷ [])))
      → ((e : Error) → w.units h c ≡ err e → E (replay w.units ws.id h (now_at h) (c ∷ [])))
      → Ends w.units ws.id tags {A = Unit {0}} (λ _. P) E (perform w.units c h) h
  unfolding perform
  unit-Ends P E h c p q = elim (Res-cases (w.units h c)) [
    | inl (u, e) ↦ rw e (subst P (sym (later h (c ∷ []))) (p u e))
    | inr (x, e) ↦ rw e (subst E (sym (later h (c ∷ []))) (q x e))
  ]

  abbrev own_tag : Text
  own_tag = lock_tag t.cfg.merge_request_iid

  added :
      (ts : List Text)
      → IsReady ts
      → OwnedBy (some t.cfg.merge_request_iid) (ts ++ keep (is_missing ts) (own_tag ∷ []))
  added ts (inl own) = add-OwnedBy t.cfg.merge_request_iid ts own
  added ts (inr own) = add-OwnedBy_self t.cfg.merge_request_iid ts own

  pub add_tags-Ends :
      (E : List Text → Type 0) (h : History)
      → ((ts : List Text) → IsReady ts → E ts)
      → IsReady (now_at h)
      → Ends w.units ws.id tags
          (λ _ ts. OwnedBy (some t.cfg.merge_request_iid) ts)
          E
          (TfcClient.add_tags w ws.id tf_prefix (itoa t.cfg.merge_request_iid) h)
          h
  unfolding TfcClient.add_tags
  add_tags-Ends E h weak ready =
      unit-Ends (OwnedBy (some t.cfg.merge_request_iid)) E h
        (workspaces_add_tags ws.id (own_tag ∷ []))
        (λ u e. rw (e, text_eq_refl ws.id) (added (now_at h) ready))
        (λ x e. rw (e, text_eq_refl ws.id) (weak (now_at h) ready))

  abbrev Answered : Option ℕ → Text → Post (List Text)
  Answered o query names ts = OwnedBy o ts × (names ≡ keep (λ tag. contains tag query) ts)

  query-Ends :
      (o : Option ℕ) (E : List Text → Type 0) (query : Text) (h : History)
      → OwnedBy o (now_at h)
      → Ends w.units ws.id tags
          (Answered o query)
          E
          (perform w.text_lists (workspaces_list_tags ws.id query) h)
          h
  unfolding perform
  query-Ends o E query h own =
      let e = sym (later h (workspaces_list_tags ws.id query ∷ [])) in
      rw (keeps h query) (subst (OwnedBy o) e own, ap (keep (λ tag. contains tag query)) e)

  remove_names-Ends :
      (n : ℕ) (names : List Text) (k : History)
      → Answered (some n) (lock_tag n) names (now_at k)
      → Ends w.units ws.id tags
          (λ _ ts. OwnedBy none ts)
          (OwnedBy (some n))
          ((if is_empty names
              then pure tt
              else perform w.units (workspaces_remove_tags ws.id names))
            k)
          k
  remove_names-Ends n [] k (own, e) =
      let m = matched n (now_at k) own in cc (ap (any (text_eq (lock_tag n))) e)
  remove_names-Ends n (name ∷ names) k (own, e) =
      unit-Ends (OwnedBy none) (OwnedBy (some n)) k (workspaces_remove_tags ws.id (name ∷ names))
        (λ u f. rw (f, text_eq_refl ws.id) (rw e (remove-OwnedBy n (now_at k) own)))
        (λ x f. rw (f, text_eq_refl ws.id) own)

  pub remove-Ends :
      (n : ℕ) (h : History)
      → OwnedBy (some n) (now_at h)
      → Ends w.units ws.id tags
          (λ _ ts. OwnedBy none ts)
          (OwnedBy (some n))
          (TfcClient.remove_tags_by_query w ws.id (lock_tag n) h)
          h
  unfolding TfcClient.remove_tags_by_query TfcClient.get_tags_by_query
  remove-Ends n h own =
      Ends-bind w.units ws.id tags (Answered (some n) (lock_tag n)) (λ _ ts. OwnedBy none ts)
        (OwnedBy (some n)) (perform w.text_lists (workspaces_list_tags ws.id (lock_tag n))) _ h
        (query-Ends (some n) (OwnedBy (some n)) (lock_tag n) h own) (remove_names-Ends n)

  pub fail-Ends :
      (P : Post (Unit {0})) (E : List Text → Type 0) (e : Error) (h : History)
      → E (now_at h)
      → Ends w.units ws.id tags P E (fail e h) h
  unfolding fail
  fail-Ends P E e h p = subst E (sym (later h [])) p

  pub pure-Ends :
      (P : List Text → Type 0) (E : List Text → Type 0) (h : History)
      → P (now_at h)
      → Ends w.units ws.id tags (λ (_ : Unit {0}). P) E (pure tt h) h
  unfolding pure
  pure-Ends P E h p = subst P (sym (later h [])) p

  pub read-Ends :
      (o : Option ℕ) (E : List Text → Type 0) (n : ℕ) (h : History)
      → OwnedBy o (now_at h)
      → Ends w.units ws.id tags {A = Res DetailedMr}
          (λ _. OwnedBy o)
          E
          (attempt
            (perform w.merge_requests (get_merge_request n t.cfg.project_name_with_namespace))
            h)
          h
  unfolding attempt perform
  read-Ends o E n h own =
      subst (OwnedBy o) (sym (later h (get_merge_request n t.cfg.project_name_with_namespace ∷ [])))
        own
