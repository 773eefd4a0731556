-- ===== src/Auth/State.antt =====
-- TopicAuthorizationState and TopicAuthorizationService of src/brokerlib/topicauthorization/src. The
-- policy is a table from topics to the clients that may use them. The mutex around the state, the
-- parsing of the policy's file and the logging are left out.
use opendxl_broker.Prelude.{
  Bool, true, false, Option, none, some, List, [], ◌∷◌, ◌&&◌, ◌||◌, Str, has, find, if◌then◌else◌,
}
use opendxl_broker.Topic.Iterate.{wildcards, is_wildcard}

-- TopicAuthorizationStateData
abbrev pub StateData : Type 0
StateData = List (Str × List Str)

unfoldable pub has_wildcards : StateData → Bool
has_wildcards [] = false
has_wildcards ((name, clients) ∷ data') =
    let rest = has_wildcards data' in if is_wildcard name then true else rest

pub record AuthorizationState : Type 0 where
  publishers : StateData
  subscribers : StateData
  is_wildcarding_enabled : Bool

-- The constructor.
unfoldable pub authorization_state : StateData → StateData → AuthorizationState
authorization_state publishers subscribers = record {
  publishers = publishers;
  subscribers = subscribers;
  is_wildcarding_enabled = has_wildcards publishers || has_wildcards subscribers;
}

-- The answer, and `*hit`.
unfoldable pub is_authorized : StateData → Str → Str → Bool × Bool
is_authorized state key topic = elim (find topic state) [
  | none ↦ (true, false)
  | some agents ↦ (has key agents, true)
]

-- while( CoreUtil::iterateWildcardNext( wcTopic ) ): the rounds do not change what later ones see.
unfoldable pub authorized_loop : StateData → Str → List Str → Bool → Bool
authorized_loop state key [] authorized = authorized
authorized_loop state key (wc_topic ∷ topics) authorized =
    let answer = is_authorized state key wc_topic in
    let rest = authorized_loop state key topics (if answer.0 then authorized else false) in
    if answer.0 && answer.1 then true else rest

-- What _isAuthorizedToSubscribe and _isAuthorizedToPublish have in common, for the table of each.
-- `none` says that the loop over the wildcards did not end.
unfoldable pub authorized_for : Bool → StateData → Str → Str → Option Bool
authorized_for wildcarding state key topic =
    let answer = is_authorized state key topic in
    if wildcarding
    then (if answer.1 && answer.0 then some true else elim (wildcards topic) [
      | none ↦ none
      | some topics ↦ some (authorized_loop state key topics answer.0)
    ])
    else some answer.0

unfoldable pub is_authorized_to_subscribe : AuthorizationState → Str → Str → Option Bool
is_authorized_to_subscribe state key topic =
    authorized_for state.is_wildcarding_enabled state.subscribers key topic

unfoldable pub is_authorized_to_publish : AuthorizationState → Str → Str → Option Bool
is_authorized_to_publish state key topic =
    authorized_for state.is_wildcarding_enabled state.publishers key topic

-- HASH_ITER( hh, certHashes, current, tmp )
unfoldable pub certs_loop : (Str → Option Bool) → List Str → Option Bool
certs_loop check [] = some false
certs_loop check (cert ∷ certs) =
    let rest = certs_loop check certs in
    elim (check cert) [ none ↦ none | some authorized ↦ if authorized then some true else rest ]

-- The calls with a table of hashes of certificates, where an empty table is the null pointer.
unfoldable pub with_certs : (Str → Option Bool) → List Str → Option Bool
with_certs check [] = check []
with_certs check (cert ∷ certs) = certs_loop check (cert ∷ certs)
