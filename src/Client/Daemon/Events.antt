-- ===== src/Client/Daemon/Events.antt =====
-- The events that the daemon follows, and what they ask of it, told without its connection.
use lapas.Prelude.{Bool, List, [], ◌∷◌, ◌++◌, some, Outcome}
use lapas.Proto.Serde.{Result}
use lapas.Proto.Models.{ApiAuth}
use lapas.Proto.Packet.{
  LapasProtocol, control_ping, shadow_get_list, shadow_get_list_response, notify_root_changed,
  notify_dns_mappings_changed, notify_users_changed,
}
use lapas.Proto.RoundTrip.{IsPacket}
use lapas.Client.Cache.{UserCache}
use lapas.Client.Daemon.{
  Report, Wake, timer, arrival, handle_root_changed, handle_dns_mappings_changed,
}

-- The timer between two packets, or a packet, with how a child process would end.
pub data Event (DateTime : Type 0) : Type 0 where
  tick : Event DateTime
  came : Outcome (Outcome Bool) → LapasProtocol DateTime → Event DateTime

module _ {DateTime : Type 0} where
  abbrev pub wake_of : Event DateTime → Wake
  wake_of tick = timer 0
  wake_of (came child p) = arrival child

  abbrev pub arrived : List (Event DateTime) → List (LapasProtocol DateTime)
  arrived [] = []
  arrived (tick ∷ es) = arrived es
  arrived (came child p ∷ es) = p ∷ arrived es

  -- The packet that the daemon sends at an event.
  abbrev pub request_of : ApiAuth → Event DateTime → List (LapasProtocol DateTime)
  request_of auth tick = control_ping ∷ []
  request_of auth (came child notify_users_changed) = shadow_get_list auth ∷ []
  request_of auth (came child _) = []

  abbrev pub requests : ApiAuth → List (Event DateTime) → List (LapasProtocol DateTime)
  requests auth [] = []
  requests auth (e ∷ es) = request_of auth e ++ requests auth es

  -- The cache after an event: a list that came replaces it.
  abbrev pub newer : UserCache DateTime → Event DateTime → UserCache DateTime
  newer cache (came child (shadow_get_list_response (Result.ok users))) = some users
  newer cache _ = cache

  abbrev pub newest : UserCache DateTime → List (Event DateTime) → UserCache DateTime
  newest cache [] = cache
  newest cache (e ∷ es) = newest (newer cache e) es

  -- The program that is run at an event.
  abbrev pub program_of : Event DateTime → List Report
  program_of (came child notify_root_changed) = handle_root_changed child ∷ []
  program_of (came child notify_dns_mappings_changed) = handle_dns_mappings_changed child ∷ []
  program_of _ = []

  abbrev pub programs : List (Event DateTime) → List Report
  programs [] = []
  programs (e ∷ es) = program_of e ++ programs es

  -- Not an error in place of a list.
  abbrev pub IsGranted : LapasProtocol DateTime → Type 0
  IsGranted (shadow_get_list_response (Result.err e)) = ⊥
  IsGranted _ = Unit

  abbrev pub IsGood : Event DateTime → Type 0
  IsGood tick = Unit
  IsGood (came child p) = IsPacket p × IsGranted p
