-- ===== src/Requests.antt =====
-- Requests to a service, and programs that send them. A reply of a provider's API has a value, a status
-- and perhaps an error; what is answered may depend on all requests before it, so that nothing is
-- assumed of the service.
pub mod Calls
pub mod Tries
pub mod Since
use tfbuddy.Prelude.{ℕ, Option, none, some, List, [], ◌∷◌, ◌++◌}
use tfbuddy.Errors.{Error, create_permanent_http_error}
use tfbuddy.Effects.{Res, ok, err}

-- `value, resp, err` of a library call. `resp` is there also where `err` is.
pub record Reply (A : Type 0) : Type 0 where
  pub value : A
  pub status : ℕ
  pub error : Option Error

module _ (C : Type 0) where
  abbrev pub Asks : Type 0 → Type 0
  Asks A = List C → C → Reply A

  -- A program: from the requests so far to its result and the requests that it sends.
  abbrev pub Req : Type 0 → Type 0
  Req A = List C → Res A × List C

module _ {C A B : Type 0} where
  abbrev pub continue : Res A × List C → (A → Req C B) → Req C B
  continue (ok a, w) f h = let (r, w') = f a (h ++ w) in (r, w ++ w')
  continue (err e, w) f h = (err e, w)

infixl 5 ◌>>=◌ ◌>>◌
unfoldable pub ◌>>=◌ : {C A B : Type 0} → Req C A → (A → Req C B) → Req C B
◌>>=◌ m f h = continue (m h) f h

abbrev pub ◌>>◌ : {C B : Type 0} → Req C (Unit {0}) → Req C B → Req C B
m >> k = m >>= λ _. k

unfoldable pub pure : {C A : Type 0} → A → Req C A
pure a h = (ok a, [])

unfoldable pub fail : {C A : Type 0} → Error → Req C A
fail e h = (err e, [])

-- The value of a reply, and `utils.CreatePermanentHTTPError(resp.StatusCode, err)`.
unfoldable pub result_of : {A : Type 0} → Reply A → Res A
result_of reply = elim (create_permanent_http_error reply.status reply.error) [
  | none ↦ ok reply.value
  | some e ↦ err e
]

unfoldable pub send : {C A : Type 0} → Asks C A → C → Req C A
send ask c h = (result_of (ask h c), c ∷ [])

-- A request whose reply is a value or an error.
unfoldable pub query : {C A : Type 0} → (List C → C → Res A) → C → Req C A
query ask c h = (ask h c, c ∷ [])

-- The reply itself, for code that reads the error before the status.
unfoldable pub receive : {C R : Type 0} → (List C → C → R) → C → Req C R
receive ask c h = (ok (ask h c), c ∷ [])

-- `return value, utils.CreatePermanentHTTPError(status, err)`
unfoldable pub give : {C A : Type 0} → A → ℕ → Error → Req C A
give value status e h = (result_of (record { value = value; status = status; error = some e }), [])

-- `backoff.RetryWithData`, and `backoff.Retry` for an operation without a value, with the policy of the
-- client. The package is not code of this repository: how it retries is a parameter.
abbrev pub Backoff : Type 0 → Type 1
Backoff C = (A : Type 0) → Req C A → Req C A

-- An error that is logged only.
unfoldable pub ignored : {C A : Type 0} → Req C A → Req C (Unit {0})
ignored m h = (ok tt, (m h).1)

abbrev pub relabel : {C A : Type 0} → (Error → Error) → Res A × List C → Res A × List C
relabel g (ok a, w) = (ok a, w)
relabel g (err e, w) = (err (g e), w)

-- `return utils.CreatePermanentError(err)` where `m` fails, for `g`.
unfoldable pub map_error : {C A : Type 0} → (Error → Error) → Req C A → Req C A
map_error g m h = relabel g (m h)

unfoldable pub each : {C A : Type 0} → (A → Req C (Unit {0})) → List A → Req C (Unit {0})
each body [] = pure tt
each body (x ∷ xs) = body x >> each body xs

-- `defer`: `last` runs when `m` is done, and its result is ignored.
unfoldable pub finally : {C A : Type 0} → Req C (Unit {0}) → Req C A → Req C A
finally last m h = let (r, w) = m h in (r, w ++ (last (h ++ w)).1)
