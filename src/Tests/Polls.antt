-- ===== src/Tests/Polls.antt =====
-- The poller: delays, cadence, and the outcome of polls.
use statsig_forward_proxy.Prelude.{
  ◌≡◌, true, false, none, some, List, [], ◌∷◌, Text, codes, text_eq, arith, get,
}
use statsig_forward_proxy.Store.{data_available, error}
use statsig_forward_proxy.Polling.Backoff.Delay.{
  RequestBackoffPolicy, from_secs, scaled_or, from_polling_interval, delay_for_failure,
  delay_for_failure-doubles,
}
use statsig_forward_proxy.Polling.Backoff.Controller.{can_attempt_at, prune_stale_at}
use statsig_forward_proxy.Polling.Backoff.History.{
  Call, asked, finished, replay, can_attempt_at-standing,
}
use statsig_forward_proxy.Polling.Backoff.Pruning.{prune_stale_at-can_attempt_at}
use statsig_forward_proxy.Polling.Cadence.{BackgroundPollDispatchConfig, new}
use statsig_forward_proxy.Polling.Outcome.{Poll, Stores, IsSynced, poll_all, poll_all-IsSynced}
use statsig_forward_proxy.Store.SdkKeys.{get_lcut}
use statsig_forward_proxy.Tests.Stores.{some_request, payload}

delay_for_failure-doubles_example : delay_for_failure (from_polling_interval 10) 3 ≡ from_secs 40
delay_for_failure-doubles_example = delay_for_failure-doubles 10 2

abbrev policy : RequestBackoffPolicy
policy = record { initial_delay = from_secs 10; max_delay = from_secs 300 }

abbrev calls : List (Call Text)
calls =
    finished (codes "a") error (from_secs 12)
    ∷ asked (codes "a") (from_secs 11)
    ∷ finished (codes "a") error (from_secs 1)
    ∷ []

can_attempt_at-standing_example :
    (can_attempt_at policy (codes "a") (from_secs 31) (replay policy calls)).1 ≡ false
unfolding delay_for_failure scaled_or
can_attempt_at-standing_example = can_attempt_at-standing policy calls (codes "a") (from_secs 31)

prune_stale_at-can_attempt_at_example :
    (can_attempt_at policy
      (codes "a")
      (from_secs 5000)
      (prune_stale_at policy (from_secs 4000) (replay policy calls))).1
    ≡ (can_attempt_at policy (codes "a") (from_secs 5000) (replay policy calls)).1
prune_stale_at-can_attempt_at_example =
    prune_stale_at-can_attempt_at policy calls (codes "a") (from_secs 4000) (from_secs 5000)
      (omega arith, (omega arith, (omega arith, tt))) (omega arith)

abbrev config : BackgroundPollDispatchConfig
config = new 12345 4 0

abbrev a_poll : Poll
a_poll = record {
  request_context = record { authorized_request_context = some_request };
  since = 0;
  dp_result = record { result = data_available; body = some payload; lcut = 8 };
  clear_datastore_on_unauthorized = true;
  backup = none;
}

abbrev no_stores : Stores
no_stores = record { keystore = []; specs = [] }

no_stores-IsSynced : IsSynced no_stores
unfolding get get_lcut
no_stores-IsSynced k = omega arith

poll_all-IsSynced_example : IsSynced (poll_all (a_poll ∷ a_poll ∷ []) no_stores)
poll_all-IsSynced_example = poll_all-IsSynced (a_poll ∷ a_poll ∷ []) no_stores no_stores-IsSynced
