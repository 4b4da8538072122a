-- ===== src/Clients/Session.antt =====
-- src/legacy_client.cpp: `eventTypeMask`, `subscriptionFlag` and the class `Session`, which owns
-- the handles of the C API. The C API and its constants are a parameter; the calls of it are
-- recorded in their order.
use dxfcxx_event_test.Base.{
  ℕ, Bool, true, false, Option, none, some, List, [], ◌∷◌, ◌++◌, ltb, if◌then◌else◌, length,
}
use dxfcxx_event_test.Text.{Bytes}
use dxfcxx_event_test.Task.{
  EventKind, quote, trade, trade_eth, summary, time_and_sale, PatternItem, TaskPattern,
}
use dxfcxx_event_test.Task.Symbols.{symbols}
use dxfcxx_event_test.Clients.{int32_max}
use dxfcxx_event_test.Clients.Legacy.{Contract, default, ticker, stream, Config}

-- The answer of a function that creates a handle: a success stores it, and a failure may leave
-- anything in the place for it.
pub data Answer : Type 0 where
  created : ℕ → Answer
  refused : Option ℕ → Answer

-- The C API, on event masks M and subscription flags F. A missing handle is `none`.
pub record Library (M F : Type 0) : Type 0 where
  pub profile_mask : M
  pub quote_mask : M
  pub trade_mask : M
  pub trade_eth_mask : M
  pub summary_mask : M
  pub bit_or : M → M → M
  pub default_flag : F
  pub force_ticker : F
  pub force_stream : F
  pub create_connection : Bytes → Answer
  pub create_subscription : ℕ → M → Answer
  pub create_subscription_with_flags : ℕ → M → F → Answer
  pub attach_event_listener : ℕ → Bool
  pub add_symbols : ℕ → List Bytes → Bool

-- A call of the C API with what it answered.
pub data ApiCall (M F : Type 0) : Type 0 where
  connected : Bytes → Answer → ApiCall M F
  subscribed : ℕ → M → Answer → ApiCall M F
  subscribed_with_flags : ℕ → M → F → Answer → ApiCall M F
  attached : ℕ → Bool → ApiCall M F
  added : ℕ → List Bytes → Bool → ApiCall M F
  subscription_closed : ℕ → ApiCall M F
  connection_closed : ℕ → ApiCall M F

pub record Session : Type 0 where
  pub connection : Option ℕ
  pub subscription : Option ℕ

-- What `start` throws: a refused operation, or too many symbols.
pub data StartError : Type 0 where
  no_connection : StartError
  no_subscription : StartError
  no_listener : StartError
  no_symbols : StartError
  too_many_symbols : StartError

-- A start with its calls and what it threw.
pub record Started (M F : Type 0) : Type 0 where
  pub session : Session
  pub calls : List (ApiCall M F)
  pub thrown : Option StartError

module _ {M F : Type 0} where
  -- `eventTypeMask`.
  unfoldable pub event_type_mask : Library M F → TaskPattern → M
  event_type_mask library pattern = mask_from library.profile_mask pattern.items
    where
      with_kind : M → EventKind → M
      with_kind mask quote = library.bit_or mask library.quote_mask
      with_kind mask trade = library.bit_or mask library.trade_mask
      with_kind mask trade_eth = library.bit_or mask library.trade_eth_mask
      with_kind mask summary = library.bit_or mask library.summary_mask
      with_kind mask time_and_sale = mask

      mask_from : M → List PatternItem → M
      mask_from mask [] = mask
      mask_from mask (item ∷ items) = mask_from (with_kind mask item.kind) items

  -- `subscriptionFlag`.
  unfoldable pub subscription_flag : Library M F → Contract → F
  subscription_flag library default = library.default_flag
  subscription_flag library ticker = library.force_ticker
  subscription_flag library stream = library.force_stream

  unfoldable pub after_call : ApiCall M F → Started M F → Started M F
  after_call c s = record s { calls = c ∷ s.calls }

  -- The end of `start`, without a call.
  unfoldable pub ended : Option ℕ → Option ℕ → Option StartError → Started M F
  ended connection subscription thrown = record {
    session = record { connection = connection; subscription = subscription };
    calls = [];
    thrown = thrown;
  }

  -- The symbols of the task, whose number is an `int` in the C API.
  unfoldable pub start_symbols : Library M F → List Bytes → ℕ → ℕ → Started M F
  unfolding after_call ended
  start_symbols library names c s =
      if ltb int32_max (length names)
      then ended (some c) (some s) (some too_many_symbols)
      else after_call (added s names answer) (ended (some c) (some s) (thrown_by answer))
    where
      answer : Bool
      answer = library.add_symbols s names

      thrown_by : Bool → Option StartError
      thrown_by true = none
      thrown_by false = some no_symbols

  -- The listener.
  unfoldable pub start_listener : Library M F → List Bytes → ℕ → ℕ → Started M F
  unfolding start_symbols after_call ended
  start_listener library names c s = elim (library.attach_event_listener s) [
    | true ↦ after_call (attached s true) (start_symbols library names c s)
    | false ↦ after_call (attached s false) (ended (some c) (some s) (some no_listener))
  ]

  -- The answer to the subscription.
  unfoldable pub with_subscription : Library M F → List Bytes → ℕ → Answer → Started M F
  unfolding start_listener ended
  with_subscription library names c (created s) = start_listener library names c s
  with_subscription library names c (refused s) = ended (some c) s (some no_subscription)

  -- The subscription, with flags unless the contract is the default.
  unfoldable pub start_subscription : Library M F → Contract → M → List Bytes → ℕ → Started M F
  unfolding with_subscription after_call subscription_flag
  start_subscription library contract mask names c = subscribe contract
    where
      plain : Answer
      plain = library.create_subscription c mask

      flagged : Contract → Answer
      flagged kind = library.create_subscription_with_flags c mask (subscription_flag library kind)

      with_flags : Contract → Started M F
      with_flags kind =
          after_call (subscribed_with_flags c mask (subscription_flag library kind) (flagged kind))
            (with_subscription library names c (flagged kind))

      subscribe : Contract → Started M F
      subscribe default =
          after_call (subscribed c mask plain) (with_subscription library names c plain)
      subscribe ticker = with_flags ticker
      subscribe stream = with_flags stream

  -- `Session::start` on an empty session.
  unfoldable pub start_session : Library M F → Config → TaskPattern → Started M F
  unfolding start_subscription after_call ended event_type_mask symbols
  start_session library config pattern = after_call (connected config.address answer) (rest answer)
    where
      answer : Answer
      answer = library.create_connection config.address

      rest : Answer → Started M F
      rest (created c) =
          start_subscription library config.contract (event_type_mask library pattern)
            (symbols pattern) c
      rest (refused c) = ended c none (some no_connection)

  -- `~Session`.
  unfoldable pub close_session : Session → List (ApiCall M F)
  close_session session =
      closed_subscription session.subscription ++ closed_connection session.connection
    where
      closed_subscription : Option ℕ → List (ApiCall M F)
      closed_subscription none = []
      closed_subscription (some s) = subscription_closed s ∷ []

      closed_connection : Option ℕ → List (ApiCall M F)
      closed_connection none = []
      closed_connection (some c) = connection_closed c ∷ []

  -- All calls of a session, from its start to its end.
  unfoldable pub session_calls : Library M F → Config → TaskPattern → List (ApiCall M F)
  unfolding start_session close_session
  session_calls library config pattern =
      let started = start_session library config pattern in
      started.calls ++ close_session started.session
