-- ===== src/Mqtt.antt =====
-- mqtt/client.go and mqtt/exporter.go: the state of a client, a broker's retained messages and the
-- exporter's memory. What a publish meets is an argument: the n-th attempt's outcome is `fate n`.
pub mod Entities
pub mod Publish
pub mod Health
pub mod Discovery
use Prim.Native.String.{String}
use text.Mathlib.Text.{◌==◌ as str_eq}
use infinid.Prelude.Assoc.{Eq, string_eq, lookup, insert, erase}
use infinid.Prelude.{
  ℕ, ◌+◌, ◌%◌, ◌^◌, Bool, true, false, not, Option, none, some, List, [], ◌==◌, if◌then◌else◌,
}

-- What the client finds: the connection not open, or a token that completes, fails or does not
-- complete in time. A message whose token is late may still arrive.
pub data Fate : Type 0 where
  closed : Fate
  sent : Fate
  failed : Fate
  late : Bool → Fate

-- The retained messages; `attempts` counts the calls of Publish.
pub record Broker : Type 0 where
  pub retained : List (String × String)
  pub attempts : ℕ

-- MQTT: a retained message without content takes the topic's away.
abbrev pub retain : String → String → List (String × String) → List (String × String)
retain topic payload m = if str_eq payload "" then erase topic m else insert topic payload m

abbrev pub arrives : Fate → Bool
arrives closed = false
arrives sent = true
arrives failed = false
arrives (late b) = b

-- The error is nil.
abbrev pub succeeds : Fate → Bool
succeeds closed = false
succeeds sent = true
succeeds failed = false
succeeds (late b) = false

-- `PahoPublisher.Publish`, always with `retain` true: the broker after it.
unfoldable pub publish : Fate → String → String → Broker → Broker
publish fate topic payload b = record {
  retained = if arrives fate then retain topic payload b.retained else b.retained;
  attempts = b.attempts + 1;
}

-- The counters of a client are 64-bit words.
pub record PahoPublisher : Type 0 where
  pub reconnects : ℕ
  pub seen : ℕ

unfoldable pub on_connect : PahoPublisher → PahoPublisher
on_connect p = record p { reconnects = (p.reconnects + 1) % 2 ^ 64 }

unfoldable pub reconnected : PahoPublisher → PahoPublisher × Bool
reconnected p = (record p { seen = p.reconnects }, not (p.reconnects == p.seen))

pub record Config : Type 0 where
  pub base_topic : String
  pub discovery_prefix : String
  pub zone_names : List String
  pub version : String

pub record Exporter : Type 0 where
  pub discovered : List (String × Bool)
  pub last : List (String × String)
  pub last_health : List (String × String)
  pub last_beat : ℕ
  pub last_health_beat : ℕ

-- An exporter and the broker that its publisher talks to.
pub record Session : Type 0 where
  pub exporter : Exporter
  pub broker : Broker

unfoldable pub new : Exporter
new = record { discovered = []; last = []; last_health = []; last_beat = 0; last_health_beat = 0 }

unfoldable pub reassert : Exporter → Exporter
reassert e = record e {
  discovered = [];
  last = [];
  last_health = [];
  last_beat = 0;
  last_health_beat = 0;
}

-- A missing key of a Go map of strings reads "".
abbrev pub text_of : Option String → String
text_of none = ""
text_of (some s) = s
