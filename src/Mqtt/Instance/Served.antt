-- ===== src/Mqtt/Instance/Served.antt =====
-- The commands that the broker acknowledges against what they declare
-- (crates/ill-core/src/actor_type/mqtt_client/runtime.rs and commands.rs).
use i_ll.Prelude.{true, Option, some, ◌≡◌, refl, ◌⊎◌, inl, inr}
use i_ll.Actor.Command.{CommandDef}
use i_ll.Actor.Mqtt.{subscribe_cmd, publish_cmd, network_and_mqtt_error_types}
use i_ll.Runtime.{CommandArgs, RunOutcome}
use i_ll.Exec.Outcomes.{conforms}
use i_ll.Mqtt.Receive.{at_most_once, at_least_once, exactly_once}
use i_ll.Mqtt.Session.{Broker, Connected, connected, Step}
use i_ll.Mqtt.Requests.Answered.{IsDeclared}
use i_ll.Mqtt.Requests.Settled.{AllQuiet}
use i_ll.Mqtt.Requests.Returns.{IsServed, Returns, subscribe-Returns, publish-Returns}
use i_ll.Mqtt.Instance.{execute}

-- The commands whose acknowledgement is awaited.
unfoldable pub IsAcknowledged : CommandDef → Type 0
IsAcknowledged def =
    ((def ≡ subscribe_cmd "subscribe_0")
      ⊎ ((def ≡ subscribe_cmd "subscribe_1") ⊎ (def ≡ subscribe_cmd "subscribe_2")))
    ⊎ ((def ≡ publish_cmd "publish_1" network_and_mqtt_error_types)
        ⊎ (def ≡ publish_cmd "publish_2" network_and_mqtt_error_types))

module _ (B : Broker) where
  Served : CommandDef → Option (Step B) → Type 0
  Served def r =
      (c : Connected B) × (o : RunOutcome) × (w : B.World) × (r ≡ some (connected c, o, w))
      × (conforms def o ≡ true)
      × AllQuiet c.event_loop

  -- The command behind a name.
  Serves : CommandDef → Connected B → CommandArgs → B.World → Type 0
  Serves def c args w = Served def (execute B (connected c) def.name args w)

  module _ (c : Connected B) (args : CommandArgs) (w : B.World) (served : IsServed B c) where
    subscribed_0 : Serves (subscribe_cmd "subscribe_0") c args w
    unfolding Serves Served execute subscribe_cmd Returns IsDeclared conforms
    subscribed_0 =
        let (c', o, w', done, fits, quiet) = subscribe-Returns B c served at_most_once args w in
        (c', o, w', done, fits, quiet)

    subscribed_1 : Serves (subscribe_cmd "subscribe_1") c args w
    unfolding Serves Served execute subscribe_cmd Returns IsDeclared conforms
    subscribed_1 =
        let (c', o, w', done, fits, quiet) = subscribe-Returns B c served at_least_once args w in
        (c', o, w', done, fits, quiet)

    subscribed_2 : Serves (subscribe_cmd "subscribe_2") c args w
    unfolding Serves Served execute subscribe_cmd Returns IsDeclared conforms
    subscribed_2 =
        let (c', o, w', done, fits, quiet) = subscribe-Returns B c served exactly_once args w in
        (c', o, w', done, fits, quiet)

    published_1 : Serves (publish_cmd "publish_1" network_and_mqtt_error_types) c args w
    unfolding Serves Served execute publish_cmd subscribe_cmd Returns IsDeclared conforms
    published_1 =
        let (c', o, w', done, fits, quiet) = publish-Returns B c served at_least_once args w refl in
        (c', o, w', done, fits, quiet)

    published_2 : Serves (publish_cmd "publish_2" network_and_mqtt_error_types) c args w
    unfolding Serves Served execute publish_cmd subscribe_cmd Returns IsDeclared conforms
    published_2 =
        let (c', o, w', done, fits, quiet) = publish-Returns B c served exactly_once args w refl in
        (c', o, w', done, fits, quiet)

    of_def : (def : CommandDef) → IsAcknowledged def → Serves def c args w
    unfolding IsAcknowledged
    of_def def (inl (inl e)) = rw e subscribed_0
    of_def def (inl (inr (inl e))) = rw e subscribed_1
    of_def def (inl (inr (inr e))) = rw e subscribed_2
    of_def def (inr (inl e)) = rw e published_1
    of_def def (inr (inr e)) = rw e published_2

-- In a session in which no other command waits and whose event loop does not wait for room in the
-- inbox, each command whose acknowledgement is awaited returns, if the client refuses requests once the
-- event loop has ended and if for an accepted request the packet that acknowledges it, SUBACK, PUBACK
-- or PUBCOMP, comes in the end or the connection ends, and the inbox has room for the messages that
-- come before. The outcome has the fields that the command declares for success or for the error, with
-- the declared types; the actor stays connected, and again no command waits in its session.
pub execute-answers :
    (B : Broker) (c : Connected B) (def : CommandDef) (args : CommandArgs) (w : B.World)
    → IsServed B c
    → IsAcknowledged def
    → (c' : Connected B) × (o : RunOutcome) × (w' : B.World) × (execute B
          (connected c)
          def.name
          args
          w
        ≡ some (connected c', o, w'))
      × (conforms def o ≡ true)
      × AllQuiet c'.event_loop
unfolding Serves Served
execute-answers B c def args w served known = of_def B c args w served def known
