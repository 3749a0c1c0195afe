-- ===== src/GitlabHooks/Webhooks.antt =====
-- pkg/gitlab_hooks/handler.go: which webhooks of GitLab reach a stream.
use tfbuddy.Prelude.{
  ◌≡◌, refl, ◌↔◌, ◌⊎◌, inl, inr, Bool, true, false, not, ◌&&◌, some, none, [], ◌∷◌, is_empty, arith,
  Bool-cases, Option,
}
use tfbuddy.Text.{Text, lit, text_eq}
use tfbuddy.Text.Laws.{text_eq_refl, text_eq_sound}
use tfbuddy.Effects.Laws.{Res-cases}
use tfbuddy.Effects.{Res, ok}
use tfbuddy.GitlabHooks.{NoteEvent, MergeRequestEvent}
use tfbuddy.GitlabHooks.Handler.{
  Request, StreamMsg, mr_event, note_event, gitlab_delivery_id, publish_event, handle_mr,
  handle_note, handler,
}

-- No secret is configured, or the request has it.
abbrev pub IsAuthorised : Text → Request → Type 0
IsAuthorised secret r = (secret ≡ []) ⊎ (secret ≡ r.header (lit "X-Gitlab-Token"))

abbrev rejects : Text → Request → Bool
rejects secret r = not (is_empty secret) && not (text_eq secret (r.header (lit "X-Gitlab-Token")))

is_empty_sound : (s : Text) → is_empty s ≡ true → s ≡ []
is_empty_sound [] h = refl
is_empty_sound (x ∷ s) h = cc

rejects-not : (secret : Text) (r : Request) → rejects secret r ≡ false → IsAuthorised secret r
rejects-not secret r h = elim (Bool-cases (is_empty secret)) [
  | inl e ↦ inl (is_empty_sound secret e)
  | inr e ↦ inr (text_eq_sound secret (r.header (lit "X-Gitlab-Token")) (ground (arith, e, h)))
]

IsAuthorised-passes :
    (secret : Text) (r : Request) → IsAuthorised secret r → rejects secret r ≡ false
IsAuthorised-passes secret r (inl e) = ground (arith, e)
IsAuthorised-passes secret r (inr e) =
    (let h : text_eq secret secret ≡ true = text_eq_refl secret in ground (arith, h, e))

module _ (merge_request_hook note_hook : Text) (bind_mr : Text → Res MergeRequestEvent)
    (bind_note : Text → Res NoteEvent) where
  -- The body decodes to the event, and the message has the id of the delivery.
  abbrev pub CarriesMr : Request → StreamMsg → Type 0
  CarriesMr r msg =
      (event : MergeRequestEvent) × (bind_mr r.body ≡ ok event)
      × (msg ≡ mr_event (record (event) { delivery_id = gitlab_delivery_id r }))

  abbrev pub CarriesNote : Request → StreamMsg → Type 0
  CarriesNote r msg =
      (event : NoteEvent) × (bind_note r.body ≡ ok event)
      × (msg ≡ note_event (record (event) { delivery_id = gitlab_delivery_id r }))

  abbrev pub Carries : Request → StreamMsg → Type 0
  Carries r msg =
      ((r.header (lit "X-Gitlab-Event") ≡ merge_request_hook) × CarriesMr r msg)
      ⊎ ((r.header (lit "X-Gitlab-Event") ≡ note_hook) × CarriesNote r msg)

  handle_mr_iff :
      (r : Request) (msg : StreamMsg)
      → ((handle_mr merge_request_hook note_hook bind_mr bind_note r).published ≡ some msg)
        ↔ CarriesMr r msg
  unfolding handle_mr publish_event
  handle_mr_iff r msg = elim (Res-cases (bind_mr r.body)) [
    | inl (event, e) ↦ (λ p. (event, e, ground (arith, e, p)), λ (ev, q, m). ground (arith, q, m))
    | inr (x, e) ↦ (λ p. ground (arith, e, p), λ (ev, q, m). ground (arith, e, q))
  ]

  handle_note_iff :
      (r : Request) (msg : StreamMsg)
      → ((handle_note merge_request_hook note_hook bind_mr bind_note r).published ≡ some msg)
        ↔ CarriesNote r msg
  unfolding handle_note publish_event
  handle_note_iff r msg = elim (Res-cases (bind_note r.body)) [
    | inl (event, e) ↦ (λ p. (event, e, ground (arith, e, p)), λ (ev, q, m). ground (arith, q, m))
    | inr (x, e) ↦ (λ p. ground (arith, e, p), λ (ev, q, m). ground (arith, e, q))
  ]

  -- What the handler hands to a stream.
  abbrev published_of : Text → Request → Option StreamMsg
  published_of secret r =
      (handler merge_request_hook note_hook bind_mr bind_note secret r).published

  rejected : (secret : Text) (r : Request) → rejects secret r ≡ true → published_of secret r ≡ none
  unfolding handler
  rejected secret r h = ground (arith, h)

  carried :
      (secret : Text) (r : Request) (msg : StreamMsg)
      → rejects secret r ≡ false
      → published_of secret r ≡ some msg
      → Carries r msg
  unfolding handler
  carried secret r msg h p = elim (Bool-cases (is_empty (r.header (lit "X-Gitlab-Event")))) [
    | inl e ↦ ground (arith, h, e, p)
    | inr e ↦ elim (Bool-cases (text_eq (r.header (lit "X-Gitlab-Event")) merge_request_hook)) [
      | inl m ↦ inl (
        text_eq_sound (r.header (lit "X-Gitlab-Event")) merge_request_hook m,
        (handle_mr_iff r msg).0 (ground (arith, h, e, m, p)),
      )
      | inr m ↦ elim (Bool-cases (text_eq (r.header (lit "X-Gitlab-Event")) note_hook)) [
        | inl n ↦ inr (
          text_eq_sound (r.header (lit "X-Gitlab-Event")) note_hook n,
          (handle_note_iff r msg).0 (ground (arith, h, e, m, n, p)),
        )
        | inr n ↦ ground (arith, h, e, m, n, p)
      ]
    ]
  ]

  mr_published :
      (secret : Text) (r : Request) (msg : StreamMsg)
      → is_empty merge_request_hook ≡ false
      → rejects secret r ≡ false
      → r.header (lit "X-Gitlab-Event") ≡ merge_request_hook
      → CarriesMr r msg
      → published_of secret r ≡ some msg
  unfolding handler
  mr_published secret r msg named h e c =
      let s : text_eq merge_request_hook merge_request_hook ≡ true =
        text_eq_refl merge_request_hook in
      let p = (handle_mr_iff r msg).1 c in ground (arith, h, named, e, s, p)

  note_published :
      (secret : Text) (r : Request) (msg : StreamMsg)
      → is_empty note_hook ≡ false
      → text_eq note_hook merge_request_hook ≡ false
      → rejects secret r ≡ false
      → r.header (lit "X-Gitlab-Event") ≡ note_hook
      → CarriesNote r msg
      → published_of secret r ≡ some msg
  unfolding handler
  note_published secret r msg named apart h e c =
      let s : text_eq note_hook note_hook ≡ true = text_eq_refl note_hook in
      let p = (handle_note_iff r msg).1 c in ground (arith, h, named, apart, e, s, p)

  -- Where the names of the two events differ and are not empty, a message is handed to its stream
  -- exactly when the request has the secret, or none is configured, and the message is the event of
  -- its body, decoded as the kind that its event header names, with the id of the delivery.
  pub handler-Carries :
      (secret : Text) (r : Request) (msg : StreamMsg)
      → is_empty merge_request_hook ≡ false
      → is_empty note_hook ≡ false
      → text_eq note_hook merge_request_hook ≡ false
      → ((handler merge_request_hook note_hook bind_mr bind_note secret r).published ≡ some msg)
        ↔ (IsAuthorised secret r × Carries r msg)
  handler-Carries secret r msg mr_named note_named apart = elim (Bool-cases (rejects secret r)) [
    | inl h ↦ (
      λ p. (let q = rejected secret r h in ground (arith, p, q)),
      λ (a, c). (let q = IsAuthorised-passes secret r a in ground (arith, h, q)),
    )
    | inr h ↦ (
      λ p. (rejects-not secret r h, carried secret r msg h p),
      λ (a, c). elim c [
        | inl (e, m) ↦ mr_published secret r msg mr_named h e m
        | inr (e, n) ↦ note_published secret r msg note_named apart h e n
      ],
    )
  ]
