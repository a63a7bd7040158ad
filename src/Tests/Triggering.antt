-- ===== src/Tests/Triggering.antt =====
-- Runs of a trigger by hand.
use Prim.Native.String.{◌∷◌ as ◌∷ₛ◌, [] as []ₛ}
use Prim.Native.Char.{code}
use seat_surface_aoi.Prelude.{ℕ, ◌≡◌, ◌↔◌, refl, String, true, false, List, [], ◌∷◌, tally}
use seat_surface_aoi.Prelude.Result.{done, raised}
use seat_surface_aoi.Protocol.Layout.{Codec}
use seat_surface_aoi.Trigger.{
  ManualTriggerConfig, ManualTriggerClient, Exchange, chunk, nothing, closed, trigger, validate_sn,
  bad_sn, communication,
}
use seat_surface_aoi.Trigger.Order.{
  IsSn, IsSentInOrder, IsStarted, IsConfirmed, start_line, sn_line, validate_sn_iff,
  trigger-IsSentInOrder, trigger-IsConfirmed,
}

unfoldable codes : String → List ℕ
codes []ₛ = []
codes (c ∷ₛ s) = code c ∷ codes s

instance abbrev ascii : Codec
ascii = record { utf8 = codes; from_utf8 = λ bs. ""; binascii_crc32 = λ bs. tally (λ b. b) bs }

abbrev config : ManualTriggerConfig
config = record {
  terminator = ";";
  start_command = "start";
  sn_prefix = "sn";
  start_ack = "start_ack";
  sn_ack = "sn_ack";
  max_sn_length = 48;
}

abbrev fresh : ManualTriggerClient
fresh = record { is_connected = false; rx_buffer = [] }

abbrev answered : Exchange
answered = record {
  connects = true;
  stale = [];
  start_is_sent = true;
  start_replies = chunk (codes "start_") ∷ chunk (codes "ack") ∷ nothing ∷ [];
  sn_is_sent = true;
  sn_replies = chunk (codes "sn_ack") ∷ nothing ∷ [];
}

abbrev trim : String → String
trim s = s

triggers : (trigger trim config fresh answered "A-1").2 ≡ done "A-1"
unfolding trigger codes
triggers = refl

-- A connection that was closed meanwhile is found only when the start is sent.
stale_socket :
    (trigger trim config fresh (record answered { stale = closed ∷ [] }) "A-1").2
    ≡ raised communication
unfolding trigger codes
stale_socket = refl

spaced : validate_sn trim "A 1" 48 ≡ raised bad_sn
unfolding validate_sn
spaced = refl

trigger-IsConfirmed_example :
    IsSn "A-1" 48
    × ((trigger trim config fresh answered "A-1").1 ≡ start_line config ∷ sn_line config "A-1" ∷ [])
    × IsStarted config answered
    × IsConfirmed config answered
trigger-IsConfirmed_example = trigger-IsConfirmed config trim fresh answered "A-1" "A-1" triggers

trigger-IsSentInOrder_example :
    IsSentInOrder config "A-1" answered (trigger trim config fresh answered "A-1").1
trigger-IsSentInOrder_example = trigger-IsSentInOrder config trim fresh answered "A-1"

validate_sn_iff_example :
    (validate_sn trim "A-1" 48 ≡ done "A-1") ↔ ((trim "A-1" ≡ "A-1") × IsSn "A-1" 48)
validate_sn_iff_example = validate_sn_iff trim "A-1" 48 "A-1"
