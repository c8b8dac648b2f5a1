-- ===== src/Daemon/PublishLoop.antt =====
-- cmd/infinid/main.go, publishLoop: one second of it, with an exporter. The daemon's counters are
-- read under its lock; float arithmetic, the text of a fault, how instants compare and JSON are
-- arguments. The journal's error is only logged.
pub mod Reconnect
use Prim.Native.String.{String}
use infinid.Journal.{Journal, check_liveness}
use infinid.Journal.Active.{active_faults}
use infinid.Mqtt.{Fate, PahoPublisher, reconnected, reassert, Config, Session}
use infinid.Mqtt.Discovery.{EntityConfig, publish_discovery}
use infinid.Mqtt.Entities.{Format}
use infinid.Mqtt.Health.{Health, publish_health, publish_availability}
use infinid.Mqtt.Publish.{publish_state}
use infinid.Prelude.Float.{Float64, pos}
use infinid.Prelude.Keys.{keys}
use infinid.Prelude.Time.{minute, sub_time, is_zero}
use infinid.Protocol.Faults.{Clock, Fault}
use infinid.State.{State, snapshot}
use infinid.Prelude.{
  ℕ, ◌-◌, Bool, true, false, not, ◌&&◌, ◌||◌, Option, none, some, List, [], ◌∷◌, ltb, leb,
  if◌then◌else◌, length,
}

-- What the loop reads of the daemon.
pub record Counts : Type 0 where
  pub frames : ℕ
  pub last_frame : ℕ
  pub unknown_frames : ℕ
  pub sam_failures : ℕ

-- The loop's own variables, the client and the exporter.
pub record Publishing (F : Float64) : Type 0 where
  pub client : PahoPublisher
  pub session : Session
  pub last_frames : ℕ
  pub last_count : ℕ
  pub fpm : F.Carrier

pub record Printing (F : Float64) : Type 0 where
  pub format : Format F
  pub marshal : EntityConfig → String
  -- `math.Round(float64(n) / d.Minutes())`
  pub rate : ℕ → ℕ → F.Carrier
  pub after : Clock → Clock → Bool
  pub describe : Fault → String

abbrev pub online_after : ℕ
online_after = 60_000_000_000

module _ {F : Float64} (p : Printing F) (cfg : Config) (fate : ℕ → Fate) where
  abbrev pub reasserted : Publishing F → Publishing F
  reasserted q =
      let c = reconnected q.client in
      let s = q.session in
      record q {
        client = c.0;
        session = if c.1 then record s { exporter = reassert s.exporter } else s;
      }

  -- The rate, once a minute.
  abbrev pub rated : ℕ → Counts → Publishing F → Publishing F
  rated now c q =
      if is_zero q.last_count || leb minute (sub_time now q.last_count)
      then record q {
        fpm =
            if is_zero q.last_count
            then q.fpm
            else p.rate (c.frames - q.last_frames) (sub_time now q.last_count);
        last_frames = c.frames;
        last_count = now;
      }
      else q

  abbrev first_fault : List Fault → String
  first_fault [] = ""
  first_fault (f ∷ fs) = p.describe f

  abbrev faults_or_none : Option (Journal F.Carrier) → List Fault
  faults_or_none none = []
  faults_or_none (some j) = active_faults p.after j

  abbrev pub is_online : ℕ → Counts → Bool
  is_online now c = not (is_zero c.last_frame) && ltb (sub_time now c.last_frame) online_after

  abbrev pub vitals_of : ℕ → Counts → F.Carrier → Option (Journal F.Carrier) → Health F.Carrier
  vitals_of now c fpm j =
      let active = faults_or_none j in
      record {
        frames_per_min = fpm;
        unknown_frames = F.of_int (pos c.unknown_frames);
        sam_failures = F.of_int (pos c.sam_failures);
        bus_online = is_online now c;
        fault_active = ltb 0 (length active);
        fault_count = F.of_int (pos (length active));
        last_fault = first_fault active;
      }

  abbrev pub checked : ℕ → Option (Journal F.Carrier) → Option (Journal F.Carrier)
  checked now none = none
  checked now (some j) = some (check_liveness now [] j)

  -- The publishes of one round, in their order.
  unfoldable pub publish_all :
      ℕ → Counts → State F.Carrier → F.Carrier → Option (Journal F.Carrier) → Session → Session
  publish_all now c st fpm j s =
      let snap = snapshot now st in
      let discovered = publish_discovery p.marshal cfg fate p.format (keys snap.zones) s in
      let stated = publish_state p.format cfg fate snap now discovered in
      let available = (publish_availability cfg fate (is_online now c) stated).0 in
      publish_health p.format cfg fate (vitals_of now c fpm j) now available

  -- One round: the journal and what is published after it.
  unfoldable pub publish_round :
      ℕ
      → Counts
      → State F.Carrier
      → Option (Journal F.Carrier) × Publishing F
      → Option (Journal F.Carrier) × Publishing F
  unfolding publish_all
  publish_round now c st (j, q) =
      let j' = checked now j in
      let q' = rated now c (reasserted q) in
      (j', record q' { session = publish_all now c st q'.fpm j' q'.session })
