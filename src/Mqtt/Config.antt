-- ===== src/Mqtt/Config.antt =====
-- The options of a connection (crates/ill-core/src/actor_type/mqtt_client/runtime.rs,
-- `build_connect_config`).
use i_ll.Prelude.{ℕ, suc, ◌*◌, String, Bool, Option, none, some, List, leb, if◌then◌else◌}
use i_ll.Prelude.Int.{pos}
use i_ll.Value.{Value, Dict, get}
use i_ll.Mqtt.Receive.{dict_to_user_properties}

-- `MqttOptions`: what `none` leaves as the library has it. Seconds for the keep-alive.
pub record MqttOptions : Type 0 where
  pub client_id : String
  pub host : String
  pub port : ℕ
  pub clean_start : Option Bool
  pub keep_alive : Option ℕ
  pub credentials : Option (String × String)
  pub user_properties : Option (List (String × String))

-- The budget for connecting is in nanoseconds.
pub record ConnectConfig : Type 0 where
  pub options : MqttOptions
  pub timeout : ℕ

-- In what follows, `none` at the outside is `Err(())`.
unfoldable pub text_or : String → Option Value → Option String
text_or default none = some default
text_or default (some (Value.string s)) = some s
text_or default (some v) = none

unfoldable pub port_or : Option Value → Option ℕ
port_or none = some 1883
port_or (some (Value.number (pos (suc n)))) = if leb (suc n) 65535 then some (suc n) else none
port_or (some v) = none

clean_start_of : Option Value → Option Bool
clean_start_of (some (Value.bool clean)) = some clean
clean_start_of v = none

unfoldable pub keep_alive_of : Option Value → Option ℕ
keep_alive_of (some (Value.number (pos (suc n)))) = some (suc n)
keep_alive_of (some (Value.number n)) = none
keep_alive_of v = some 60

unfoldable pub credentials_of : Option Value → Option Value → Option (Option (String × String))
credentials_of (some (Value.string u)) (some (Value.string p)) = some (some (u, p))
credentials_of (some (Value.string u)) none = some (some (u, ""))
credentials_of none p = some none
credentials_of u p = none

unfoldable pub timeout_of : Option Value → ℕ
timeout_of (some (Value.number (pos (suc n)))) = suc n * 1000000
timeout_of v = 10000000000

abbrev and_then {ℓ κ} : {A : Type ℓ} {B : Type κ} → Option A → (A → Option B) → Option B
and_then none f = none
and_then (some a) f = f a

unfoldable pub build_connect_config : Dict → Option ConnectConfig
unfolding text_or port_or clean_start_of keep_alive_of credentials_of timeout_of get
build_connect_config kw = and_then (text_or "127.0.0.1" (get "host" kw)) (λ host.
    and_then (port_or (get "port" kw)) (λ port.
      and_then (text_or "" (get "client_id" kw)) (λ client_id.
        and_then (credentials_of (get "username" kw) (get "password" kw)) (λ credentials.
          and_then (dict_to_user_properties (get "user_properties" kw)) (λ props. some (record {
            options = record {
              client_id = client_id;
              host = host;
              port = port;
              clean_start = clean_start_of (get "clean_start" kw);
              keep_alive = keep_alive_of (get "keep_alive" kw);
              credentials = credentials;
              user_properties = props;
            };
            timeout = timeout_of (get "timeout" kw);
          }))))))
