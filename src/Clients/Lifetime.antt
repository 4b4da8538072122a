-- ===== src/Clients/Lifetime.antt =====
-- The calls that a session of the C API makes from its start to its end, in their order.
use dxfcxx_event_test.Base.{
  ℕ, ◌≡◌, ◌∙◌, refl, true, false, Option, none, some, List, [], ◌∷◌, ◌++◌, ◌==◌, ==_refl, ltb,
  length, Bool-cases, inl, inr, if◌then◌else◌,
}
use dxfcxx_event_test.Text.{Bytes}
use dxfcxx_event_test.Task.{TaskPattern}
use dxfcxx_event_test.Clients.{int32_max}
use dxfcxx_event_test.Clients.Legacy.{Contract, default, ticker, stream, Config}
use dxfcxx_event_test.Clients.Session.{
  StartError, too_many_symbols, Answer, created, refused, Library, ApiCall, connected, subscribed,
  subscribed_with_flags, attached, added, subscription_closed, connection_closed, Started,
  after_call, ended, start_symbols, start_listener, with_subscription, start_subscription,
  start_session, close_session, session_calls,
}

-- What a client of the C API may do next. In `closing` the handles that are left are closed, the
-- subscription before its connection.
pub data Phase : Type 0 where
  unopened : Phase
  connected_to : ℕ → Phase
  subscribed_to : ℕ → ℕ → Phase
  listening : ℕ → ℕ → Phase
  closing : Option ℕ → Option ℕ → Phase

-- A handle must be the one that is open.
pub given : ℕ → ℕ → Phase → Option Phase
given h held phase = if h == held then some phase else none

given-same : (h : ℕ) (phase : Phase) → given h h phase ≡ some phase
unfolding given
given-same h phase = rw (==_refl h) refl

-- The phase after the answer to a subscription.
answered : ℕ → Answer → Phase
answered c (created s) = subscribed_to c s
answered c (refused s) = closing s (some c)

-- The phase after a call, where the call is allowed.
module _ {M F : Type 0} where
  pub next : Phase → ApiCall M F → Option Phase
  unfolding given answered
  next unopened (connected _ (created c)) = some (connected_to c)
  next unopened (connected _ (refused c)) = some (closing none c)
  next (connected_to c) (subscribed h _ answer) = given h c (answered c answer)
  next (connected_to c) (subscribed_with_flags h _ _ answer) = given h c (answered c answer)
  next (subscribed_to c s) (attached h true) = given h s (listening c s)
  next (subscribed_to c s) (attached h false) = given h s (closing (some s) (some c))
  next (listening c s) (added h _ _) = given h s (closing (some s) (some c))
  next (listening c s) (subscription_closed h) = given h s (closing none (some c))
  next (closing (some s) c) (subscription_closed h) = given h s (closing none c)
  next (closing none (some c)) (connection_closed h) = given h c (closing none none)
  next phase call = none

  pub follow : Phase → List (ApiCall M F) → Option Phase
  unfolding next
  follow phase [] = some phase
  follow phase (call ∷ calls) = elim (next phase call) [ none ↦ none | some p ↦ follow p calls ]

  follow-next :
      (p q : Phase) (call : ApiCall M F) (calls : List (ApiCall M F))
      → next p call ≡ some q
      → follow p (call ∷ calls) ≡ follow q calls
  unfolding follow
  follow-next p q call calls allowed = rw (allowed, follow) refl

  connection_left :
      (library : Library M F) (c : ℕ)
      → follow (closing none (some c)) (connection_closed c ∷ []) ≡ some (closing none none)
  unfolding next follow
  connection_left library c =
      follow-next (closing none (some c)) (closing none none) (connection_closed c) []
        (given-same c _)

  subscription_left :
      (library : Library M F) (p : Phase) (c s : ℕ)
      → next p (subscription_closed s) ≡ some (closing none (some c))
      → follow p (subscription_closed s ∷ connection_closed c ∷ []) ≡ some (closing none none)
  subscription_left library p c s allowed =
      follow-next p (closing none (some c)) (subscription_closed s) (connection_closed c ∷ [])
        allowed
      ∙ connection_left library c

  -- What is left of a session from the phase it is in closes all handles.
  IsClosed : Phase → Started M F → Type 0
  unfolding follow close_session
  IsClosed phase s = follow phase (s.calls ++ close_session s.session) ≡ some (closing none none)

  after_call-IsClosed :
      (p q : Phase) (call : ApiCall M F) (s : Started M F)
      → next p call ≡ some q
      → IsClosed q s
      → IsClosed p (after_call call s)
  unfolding IsClosed follow after_call close_session
  after_call-IsClosed p q call s allowed closed = follow-next p q call _ allowed ∙ closed

  -- A session with both handles.
  both-IsClosed :
      (library : Library M F) (c s : ℕ) (thrown : Option StartError)
      → IsClosed (closing (some s) (some c)) (ended (some c) (some s) thrown)
  unfolding IsClosed follow next ended close_session
  both-IsClosed library c s thrown =
      subscription_left library (closing (some s) (some c)) c s (given-same s _)

  listener-IsClosed :
      (library : Library M F) (c s : ℕ) (thrown : Option StartError)
      → IsClosed (listening c s) (ended (some c) (some s) thrown)
  unfolding IsClosed follow next ended close_session
  listener-IsClosed library c s thrown =
      subscription_left library (listening c s) c s (given-same s _)

  one-IsClosed :
      (library : Library M F) (c : ℕ) (s : Option ℕ) (thrown : Option StartError)
      → IsClosed (closing s (some c)) (ended (some c) s thrown)
  unfolding IsClosed follow next ended close_session
  one-IsClosed library c none thrown = connection_left library c
  one-IsClosed library c (some s) thrown = both-IsClosed library c s thrown

  none-IsClosed :
      (library : Library M F) (c : Option ℕ) (thrown : Option StartError)
      → IsClosed (closing none c) (ended c none thrown)
  unfolding IsClosed follow next ended close_session
  none-IsClosed library none thrown = refl
  none-IsClosed library (some c) thrown = connection_left library c

  start_symbols-IsClosed :
      (library : Library M F) (names : List Bytes) (c s : ℕ)
      → IsClosed (listening c s) (start_symbols library names c s)
  unfolding start_symbols next
  start_symbols-IsClosed library names c s = elim (Bool-cases (ltb int32_max (length names))) [
    | inl e ↦ rw e (listener-IsClosed library c s (some too_many_symbols))
    | inr e ↦ rw e (after_call-IsClosed _ _ _ _ (given-same s _) (both-IsClosed library c s _))
  ]

  start_listener-IsClosed :
      (library : Library M F) (names : List Bytes) (c s : ℕ)
      → IsClosed (subscribed_to c s) (start_listener library names c s)
  unfolding start_listener next
  start_listener-IsClosed library names c s = elim (Bool-cases (library.attach_event_listener s)) [
    | inl e ↦
        rw (e, start_listener)
          (after_call-IsClosed _ _ (attached s true) _ (given-same s _)
            (start_symbols-IsClosed library names c s))
    | inr e ↦
        rw (e, start_listener)
          (after_call-IsClosed _ _ (attached s false) _ (given-same s _)
            (both-IsClosed library c s _))
  ]

  with_subscription-IsClosed :
      (library : Library M F) (names : List Bytes) (c : ℕ) (answer : Answer)
      → IsClosed (answered c answer) (with_subscription library names c answer)
  unfolding with_subscription answered
  with_subscription-IsClosed library names c (created s) = start_listener-IsClosed library names c s
  with_subscription-IsClosed library names c (refused s) = one-IsClosed library c s _

  start_subscription-IsClosed :
      (library : Library M F) (contract : Contract) (mask : M) (names : List Bytes) (c : ℕ)
      → IsClosed (connected_to c) (start_subscription library contract mask names c)
  unfolding start_subscription next
  start_subscription-IsClosed library default mask names c =
      after_call-IsClosed _ _ _ _ (given-same c _) (with_subscription-IsClosed library names c _)
  start_subscription-IsClosed library ticker mask names c =
      after_call-IsClosed _ _ _ _ (given-same c _) (with_subscription-IsClosed library names c _)
  start_subscription-IsClosed library stream mask names c =
      after_call-IsClosed _ _ _ _ (given-same c _) (with_subscription-IsClosed library names c _)

  start_rest-IsClosed :
      (library : Library M F) (config : Config) (pattern : TaskPattern) (answer : Answer)
      → library.create_connection config.address ≡ answer
      → IsClosed unopened (start_session library config pattern)
  unfolding start_session next
  start_rest-IsClosed library config pattern (created c) e =
      rw (e, start_session)
        (after_call-IsClosed _ _ _ _ refl
          (start_subscription-IsClosed library config.contract _ _ c))
  start_rest-IsClosed library config pattern (refused c) e =
      rw (e, start_session) (after_call-IsClosed _ _ _ _ refl (none-IsClosed library c _))

  -- Whatever the C API answers, a session calls it in the right order on the handles that it holds:
  -- a connection, one subscription on it, the listener, the symbols; nothing but closing follows
  -- a refusal; and each handle that was stored is closed once, the subscription before its
  -- connection.
  pub session_calls-closed :
      (library : Library M F) (config : Config) (pattern : TaskPattern)
      → follow unopened (session_calls library config pattern) ≡ some (closing none none)
  unfolding session_calls IsClosed
  session_calls-closed library config pattern =
      start_rest-IsClosed library config pattern (library.create_connection config.address) refl
