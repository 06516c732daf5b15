-- ===== src/Http/Query/Tests.antt =====
-- Queries of the websocket route.
use sms_server.Base.{◌≡◌, refl, false, [], ◌∷◌, none, some}
use sms_server.Text.{codes, trim, split, equal, is_whitespace}
use sms_server.Events.Samples.{incoming, outgoing, two_kinds, two_kinds-IsLawful, parse_kind}
use sms_server.Http.WebSocket.Delivery.{subscribes}
use sms_server.Http.Query.{get_event_types, get_event_types-subscribes}

mixed : get_event_types two_kinds (some (codes " incoming ,bad, incoming")) ≡ some (incoming ∷ [])
unfolding get_event_types trim split equal parse_kind is_whitespace
mixed = refl

both : get_event_types two_kinds (some (codes "outgoing,incoming")) ≡ none
unfolding get_event_types trim split equal parse_kind is_whitespace
both = refl

get_event_types-subscribes_example :
    subscribes two_kinds (get_event_types two_kinds (some (codes "incoming"))) outgoing ≡ false
unfolding trim split equal parse_kind is_whitespace
get_event_types-subscribes_example =
    get_event_types-subscribes two_kinds two_kinds-IsLawful (some (codes "incoming")) outgoing
