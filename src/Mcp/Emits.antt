-- ===== src/Mcp/Emits.antt =====
-- The requests that an action adds to the log, one rule for each way to build an action.
pub mod System
pub mod Crawling
pub mod Assets
pub mod Ai
pub mod AnyCall
use astiango_hub.Common.{
  ℕ, String, ◌≡◌, refl, sym, ap, ◌∙◌, inl, inr, false, Option, none, some, List, [], ◌∷◌, ◌++◌,
  append-nil, append_assoc, str_eq, eq_iff, Bool-cases, Option-cases, All, All-append,
}
use astiango_hub.Mcp.Verb.{Verb}
use astiango_hub.Mcp.Session.{
  Request, AstianGoHubClient, Outcome, ok, throw, Action, pure, raise, continue, ◌>>=◌, try_catch,
  is_refused, send,
}
use astiango_hub.Mcp.Json.{Json, read_field}
use astiango_hub.Mcp.Security.{expected_confirmation, require_destructive_confirmation}
use astiango_hub.Mcp.Client.{call, get, post, put, patch, delete}
use astiango_hub.Mcp.Tools.{Content, member, handler, show_reply, report, confirmed}
use astiango_hub.Mcp.Tools.Tasks.{reply_and_data}

-- `m` extends the log by requests that satisfy `P`, whatever it returns or throws.
pub record Emits (P : AstianGoHubClient → Request → Type 0) {B : Type 0}
    (m : AstianGoHubClient → List Request → B × List Request) : Type 0 where
  pub at :
      (c : AstianGoHubClient) (log : List Request)
      → (sent : List Request) × ((m c log).1 ≡ log ++ sent) × All (P c) sent

-- Reading the body of a reply sends nothing.
log-continue :
    (r : Outcome (ℕ × Json)) (c : AstianGoHubClient) (log : List Request)
    → (continue r (λ (status, body). pure body) c log).1 ≡ log
unfolding pure
log-continue (ok v) c log = refl
log-continue (throw e) c log = refl

module _ {P : AstianGoHubClient → Request → Type 0} where
  pub Emits-pure : {A : Type 0} (a : A) → Emits P (pure a)
  unfolding pure
  Emits-pure a = record { at = λ c log. ([], sym (append-nil log), tt) }

  pub Emits-raise : {A : Type 0} (e : String) → Emits P (raise {A = A} e)
  unfolding raise
  Emits-raise e = record { at = λ c log. ([], sym (append-nil log), tt) }

  -- What is sent first, and what is sent from there.
  pub Emits-then :
      {A B : Type 0} (m : AstianGoHubClient → List Request → A × List Request)
      (k : A → AstianGoHubClient → List Request → B × List Request)
      → Emits P m
      → ((a : A) → Emits P (k a))
      → Emits P (λ c log. k (m c log).0 c (m c log).1)
  Emits-then m k hm hk = record {
    at = λ c log.
        let (first, e, p) = hm.at c log in
        let (later, f, q) = (hk (m c log).0).at c (m c log).1 in
        (
          first ++ later,
          f ∙ ap (λ l. l ++ later) e ∙ append_assoc log first later,
          All-append (P c) first later p q,
        );
  }

  Emits-continue :
      {A B : Type 0} (f : A → Action B)
      → ((a : A) → Emits P (f a))
      → (r : Outcome A) → Emits P (continue r f)
  unfolding raise
  Emits-continue f hf (ok a) = hf a
  Emits-continue f hf (throw e) = Emits-raise e

  pub Emits-bind :
      {A B : Type 0} (m : Action A) (f : A → Action B)
      → Emits P m
      → ((a : A) → Emits P (f a))
      → Emits P (m >>= f)
  unfolding ◌>>=◌
  Emits-bind m f hm hf = Emits-then m (λ r. continue r f) hm (Emits-continue f hf)

  pub Emits-try_catch :
      {A B : Type 0} (m : Action A) (f : A → B) (h : String → B)
      → Emits P m
      → Emits P (try_catch m f h)
  unfolding try_catch
  Emits-try_catch m f h hm = record { at = hm.at }

  pub Emits-send :
      (r : Request) → ((c : AstianGoHubClient) → is_refused c r ≡ false → P c r) → Emits P (send r)
  unfolding send
  Emits-send r h = record {
    at = λ c log. elim (Bool-cases (is_refused c r)) [
      | inl refused ↦ rw refused ([], sym (append-nil log), tt)
      | inr passed ↦ rw passed (r ∷ [], refl, (h c passed, tt))
    ];
  }

  pub Emits-call :
      (r : Request) → ((c : AstianGoHubClient) → is_refused c r ≡ false → P c r) → Emits P (call r)
  unfolding call
  Emits-call r h = Emits-bind (send r) _ (Emits-send r h) (λ v. Emits-pure v.1)

  -- A call sends what its `send` sends.
  pub Emits-send_of_call : (r : Request) → Emits P (call r) → Emits P (send r)
  unfolding call
  Emits-send_of_call r h = record {
    at = λ c log.
        let (sent, e, p) = h.at c log in
        (sent, sym (log-continue (send r c log).0 c (send r c log).1) ∙ e, p);
  }

  pub Emits-member : (k : String) (v : Json) → Emits P (member k v)
  unfolding member
  Emits-member k v = elim (Option-cases (read_field k v)) [
    | inl missing ↦ rw missing (Emits-raise _)
    | inr (w, found) ↦ rw found (Emits-pure w)
  ]

  pub Emits-handler :
      {A : Type 0} (prefix : String) (m : Action A) (show : A → Content)
      → Emits P m
      → Emits P (handler prefix m show)
  unfolding handler
  Emits-handler prefix m show hm = record { at = hm.at }

  pub Emits-show_reply :
      (prefix : String) (m : Action Json) → Emits P m → Emits P (show_reply prefix m)
  unfolding show_reply
  Emits-show_reply prefix m hm = record { at = hm.at }

  pub Emits-report :
      (prefix : String) (m : Action Json) (done : String)
      → Emits P m
      → Emits P (report prefix m done)
  unfolding report
  Emits-report prefix m done hm = record { at = hm.at }

  -- An action behind a confirmation runs only if the confirmation is the expected one.
  pub Emits-confirmed :
      {A : Type 0} (confirmation action id : String) (m : Action A)
      → (confirmation ≡ expected_confirmation action id → Emits P m)
      → Emits P (confirmed confirmation action id m)
  unfolding confirmed require_destructive_confirmation
  Emits-confirmed confirmation action id m h =
      elim (Bool-cases (str_eq confirmation (expected_confirmation action id))) [
        | inl same ↦ rw same (h ((eq_iff _ _).0 same))
        | inr other ↦ rw other (Emits-raise _)
      ]

  pub Emits-reply_and_data : (m : Action Json) → Emits P m → Emits P (reply_and_data m)
  unfolding reply_and_data
  Emits-reply_and_data m hm =
      Emits-bind m _ hm (λ reply. Emits-bind _ _ (Emits-member "data" reply) (λ v. Emits-pure _))

-- Every request of a verb satisfies `P`.
abbrev pub Allows : (AstianGoHubClient → Request → Type 0) → Verb → Type 0
Allows P Verb.get = (path : String) (params : Json) → Emits P (get path params)
Allows P Verb.post = (path : String) (body : Json) → Emits P (post path body)
Allows P Verb.put = (path : String) (body : Json) → Emits P (put path body)
Allows P Verb.patch = (path : String) (body : Json) → Emits P (patch path body)
Allows P Verb.delete = (path : String) → Emits P (delete path)

-- A confirmation, if there is one to give, is the expected one.
abbrev pub Passes : Option (String × String × String) → Type 0
Passes none = Unit
Passes (some (confirmation, action, id)) = confirmation ≡ expected_confirmation action id
