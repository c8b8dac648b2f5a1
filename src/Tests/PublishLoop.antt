-- ===== src/Tests/PublishLoop.antt =====
-- A round of the publish loop after the client has connected again.
use Prim.Native.String.{String}
use infinid.Daemon.PublishLoop.{Counts, Publishing, Printing, publish_round}
use infinid.Daemon.PublishLoop.Reconnect.{publish_round-reconnected}
use infinid.Journal.{Journal}
use infinid.Mqtt.Publish.Jobs.{jobs_of}
use infinid.Mqtt.Publish.Memory.{shown}
use infinid.Mqtt.Entities.{transformed}
use infinid.Mqtt.Publish.{payload_of, state_topic, object_of, zone_name}
use infinid.Prelude.Assoc.{lookup, map_values}
use infinid.Prelude.Float.{pos}
use infinid.State.{State, snapshot, horizon}
use infinid.Tests.{Value, int, terms}
use infinid.Tests.Mqtt.{format, config, field, filled-All, session, works}
use infinid.Prelude.{◌≡◌, refl, true, false, some, [], ◌∷◌, arith}

abbrev journal : Journal Value
journal = record {
  last_seen = [];
  lost = [];
  bus_silent = false;
  first_check = 0;
  counters = [];
  faults = [];
  log = [];
}

abbrev printing : Printing terms
printing = record {
  format = format;
  marshal = λ c. c.unique_id;
  rate = λ n d. int (pos n);
  after = λ a b. false;
  describe = λ f. "fault";
}

abbrev counts : Counts
counts = record { frames = 10; last_frame = 99; unknown_frames = 0; sam_failures = 0 }

abbrev state : State Value
state = record {
  sys = ("compressor_stage", field 1 "") ∷ [];
  zones = (1, ("fan_mode", field 0 "auto") ∷ []) ∷ [];
  mask_only = [];
}

abbrev publishing : Publishing terms
publishing = record {
  client = record { reconnects = 2; seen = 1 };
  session = session;
  last_frames = 0;
  last_count = 0;
  fpm = int (pos 0);
}

abbrev stage : String
stage = "infinid/compressor_stage/state"

publish_round-reconnected_example :
    shown stage
      (publish_round printing config works 100_000_000_000 counts state
        (some journal, publishing)).1.session.broker
    ≡ "1"
unfolding jobs_of lookup payload_of transformed snapshot horizon map_values state_topic object_of
    zone_name
publish_round-reconnected_example =
    publish_round-reconnected printing config works (λ n. refl) 100_000_000_000 counts state stage
      "1" (omega arith)
      (filled-All (jobs_of format config (snapshot 100_000_000_000 state) true) refl) refl refl
      (some journal) publishing (refl, (refl, (refl, (refl, (refl, (refl, (refl, tt)))))))
      (ground arith)
