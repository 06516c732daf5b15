-- ===== src/App/Messages.antt =====
-- What the message task does over any interleaving with the clean-up.
use sms_server.Base.{◌≡◌, refl, Bool, true, false, List, [], ◌∷◌, ◌++◌, if◌then◌else◌}
use sms_server.Modem.Types.{Crates, sms, report, modem_status_update, network_change, position}
use sms_server.Sms.Receiver.{Groups, cleanup_stalled_multipart}
use sms_server.App.{
  Announcement, status_update, gnss_position_report, Step, message_received, cleanup_tick,
  start_sms_receiver, handle_modem_message,
}

nothing_announced : (A : Type 0) (b : Bool) → ◌≡◌ {A = List A} [] (if b then [] else [])
nothing_announced A true = refl
nothing_announced A false = refl

announce_cons :
    {A : Type 0} (b : Bool) (a : A) (rest : List A)
    → (if b then a ∷ [] else []) ++ (if b then rest else []) ≡ (if b then a ∷ rest else [])
announce_cons true a rest = refl
announce_cons false a rest = refl

module _ {x : Crates} (has_broadcaster : Bool) where
  abbrev updates : List (Step x) → List (Announcement x)
  updates [] = []
  updates (message_received w (modem_status_update previous current) ∷ steps) =
      status_update previous current ∷ updates steps
  updates (message_received w (position location) ∷ steps) =
      gnss_position_report location ∷ updates steps
  updates (_ ∷ steps) = updates steps

  -- Over any interleaving of messages and clean-ups, the status updates and the positions of the
  -- modem are broadcast, each once and in order, if there is a broadcaster, and else not.
  start_sms_receiver-updates :
      (groups : Groups) (steps : List (Step x))
      → (start_sms_receiver has_broadcaster groups steps).announced
        ≡ (if has_broadcaster then updates steps else [])
  unfolding start_sms_receiver handle_modem_message
  start_sms_receiver-updates groups [] = nothing_announced (Announcement x) has_broadcaster
  start_sms_receiver-updates groups (cleanup_tick now ∷ steps) =
      start_sms_receiver-updates (cleanup_stalled_multipart now groups) steps
  start_sms_receiver-updates groups (message_received w (sms m) ∷ steps) =
      start_sms_receiver-updates
        (handle_modem_message {x = x} has_broadcaster w groups (sms m)).groups steps
  start_sms_receiver-updates groups (message_received w (report r) ∷ steps) =
      start_sms_receiver-updates groups steps
  start_sms_receiver-updates groups (message_received w (network_change status) ∷ steps) =
      start_sms_receiver-updates groups steps
  start_sms_receiver-updates groups
        (message_received w (modem_status_update previous current) ∷ steps) =
      rw (start_sms_receiver-updates groups steps) (announce_cons has_broadcaster _ _)
  start_sms_receiver-updates groups (message_received w (position location) ∷ steps) =
      rw (start_sms_receiver-updates groups steps) (announce_cons has_broadcaster _ _)
